-- ===== src/Vm/Unmap.antt =====
-- What `vm_unmap` of src/vm.c does to the address space, and that it undoes `vm_map`.
use god_os.Vm.{Vm}
use god_os.Vm.Route.{Route}
