-- ===== src/KernelHeap/Release/Tests.antt =====
-- A heap with a taken spot of 50 bytes at byte 100 of its first page.
use john_os.Common.{◌≡◌, some, arith, ◌==◌, if◌then◌else◌}
use john_os.KernelHeap.{Heap}
use john_os.KernelHeap.Release.{kernel_free}
use john_os.KernelHeap.Whole.{IsMarked}
use john_os.KernelHeap.Release.Inside.{Released, kernel_free-Released}

abbrev heap : Heap
heap = record {
  os_memmap = λ i. 0;
  mem_bt_temp = 0x200;
  mbt_freeflag = 0;
  os_memory_bit_pos = 0x200;
  free_info = λ k. if k == 100 then 1 else 0;
  size_info = λ k. if k == 100 then 50 else 0;
  mem_array_address_start = 0x400000;
}

heap-IsMarked : IsMarked heap 0
heap-IsMarked k low = ground arith

kernel_free-Released_example :
    (t : Heap) × (kernel_free 0x380000 0x400000 heap 0x500064 ≡ some t) × Released heap 100 0x200 t
kernel_free-Released_example =
    kernel_free-Released 0x380000 0x400000 heap 0 100 (omega arith) (omega arith) heap-IsMarked
      (omega arith)
