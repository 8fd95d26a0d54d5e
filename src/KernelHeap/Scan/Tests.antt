-- ===== src/KernelHeap/Scan/Tests.antt =====
-- A heap with a released spot of 100 bytes at byte 0 and a taken one of 50 behind it.
use john_os.Common.{◌≡◌, refl, inr, none, some, arith, ◌==◌, if◌then◌else◌}
use john_os.KernelHeap.{Heap, page_of}
use john_os.KernelHeap.Scan.{scan_address, take_small}
use john_os.KernelHeap.Whole.{IsMarked}
use john_os.KernelHeap.Scan.Blocks.{
  IsPage, Scanned, scan_address-Scanned, start, scan_address-stuck,
}
use john_os.KernelHeap.Scan.Place.{Fits, Placed, take_small-Placed}
use john_os.KernelHeap.Scan.Overlap.{Overlapping, scan_address-overlap}

abbrev heap : Heap
heap = record {
  os_memmap = λ i. 0;
  mem_bt_temp = 0x200;
  mbt_freeflag = 0;
  os_memory_bit_pos = 0x200;
  free_info = λ k. if k == 100 then 1 else 0;
  size_info = λ k. if k == 0 then 100 else if k == 100 then 50 else 0;
  mem_array_address_start = 0x400000;
}

heap-IsMarked : IsMarked heap 0
heap-IsMarked k low = ground arith

heap-IsPage : IsPage heap 0
heap-IsPage = record { marked = heap-IsMarked; sized = λ k low taken. ground arith }

small-Fits : Fits heap 40 0 0
small-Fits = record { room = omega arith; old = inr (omega arith, omega arith) }

scan_address-Scanned_example : Scanned heap 40 0 (scan_address heap 40 0)
scan_address-Scanned_example = scan_address-Scanned heap 40 0 (omega arith) heap-IsPage

scan_address-stuck_example : scan_address heap 101 0 ≡ none
scan_address-stuck_example =
    scan_address-stuck heap 101 0 0 (omega arith) heap-IsPage start (omega arith) refl (omega arith)
      (omega arith)

take_small-Placed_example : (t : Heap) × (take_small heap 40 0 0 ≡ some (t, 0)) × Placed heap 0 40 t
take_small-Placed_example = take_small-Placed heap 40 0 heap-IsMarked small-Fits

scan_address-overlap_example :
    (t u : Heap) × (scan_address heap 40 0 ≡ some (t, 0))
    × (scan_address t 70 (page_of t.mem_bt_temp) ≡ some (u, 40))
    × Overlapping u 0 40 100
scan_address-overlap_example =
    scan_address-overlap heap 0 40 70 heap-IsPage start refl small-Fits (omega arith) (omega arith)
      refl refl (omega arith) (omega arith) refl
