-- ===== src/Loader/Running.antt =====
-- A program that comes from an ELF image through `ubpf_load_elf_ex` (vm/ubpf_loader.c) is validated
-- and runs like any other.
use ubpf.Inst.{Inst}
use ubpf.Memory.{Memory}
use ubpf.Vm.{Vm}
use ubpf.Loader.{Loading}
