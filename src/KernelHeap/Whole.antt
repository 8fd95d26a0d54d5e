-- ===== src/KernelHeap/Whole.antt =====
-- What the tests of kernel/kernel_heap_alloc_nopaging.c on a whole page find out.
use john_os.Common.{
  ℕ, zero, suc, ◌+◌, ◌-◌, ◌*◌, ◌≤◌, ◌<◌, ◌≡◌, refl, ◌≢◌, ◌⊎◌, inl, inr, Bool, true, false, ◌&&◌,
  Option, some, arith, u32, ltb, ◌==◌, if◌then◌else◌, Bool-cases, ==→eq, ◌>>=◌,
}
use john_os.Common.Store.{Store}
use john_os.KernelHeap.{Heap, page_loop, check_if_page_taken, check_if_page_freed, settle}
use john_os.PageMap.{set_bit}

-- Every mark of the page that starts at index `page` is 0 or 1.
abbrev pub IsMarked : Heap → ℕ → Type 0
IsMarked h page = (k : ℕ) → k < 4096 → h.free_info (page + k) ≤ 1

-- The way from byte `i` of a page to the answer `r`, over blocks with the mark `wanted`: a block
-- without a size counts as four bytes.
pub data Walk (h : Heap) (wanted page : ℕ) : (i r : ℕ) → Type 0 where
  past : (i : ℕ) → 4096 ≤ i → Walk h wanted page i 1
  last :
      (i : ℕ)
      → i < 4096
      → h.free_info (page + i) ≡ wanted
      → 4096 - i ≤ h.size_info (page + i)
      → Walk h wanted page i 1
  next :
      (i r : ℕ)
      → i < 4096
      → h.free_info (page + i) ≡ wanted
      → 0 < h.size_info (page + i)
      → h.size_info (page + i) < 4096 - i
      → Walk h wanted page (i + h.size_info (page + i)) r
      → Walk h wanted page i r
  unsized :
      (i r : ℕ)
      → i < 4096
      → h.free_info (page + i) ≡ wanted
      → h.size_info (page + i) ≡ 0
      → Walk h wanted page (i + 4) r
      → Walk h wanted page i r
  ended : (i : ℕ) → i < 4096 → h.free_info (page + i) ≢ wanted → Walk h wanted page i 0

page_loop-Walk :
    (n : ℕ) (h : Heap) (wanted other page i : ℕ)
    → wanted + other ≡ 1
    → IsMarked h page
    → 4096 - i < n
    → (r : ℕ) × (page_loop n h wanted other page i ≡ some r) × Walk h wanted page i r
unfolding page_loop
page_loop-Walk zero h w o page i two marked enough = absurd (omega arith)
page_loop-Walk (suc n) h w o page i two marked enough = elim (Bool-cases (ltb i 4096)) [
  | inr end ↦ (1, rw end refl, past i (ground arith))
  | inl more ↦
      let mark = h.free_info (page + i) in
      let size = h.size_info (page + i) in
      let low : mark ≤ 1 = marked i (ground arith) in
      elim (Bool-cases (mark == w)) [
        | inr differs ↦ (
          0,
          rw (more, differs, is_other low differs) refl,
          ended i (ground arith) (ground arith),
        )
        | inl same ↦ elim (Bool-cases (ltb size (4096 - i))) [
          | inr fills ↦ (
            1,
            rw (more, same, fills) refl,
            last i (ground arith) (==→eq mark w same) (ground arith),
          )
          | inl inside ↦ elim (Bool-cases (size == 0)) [
            | inl empty ↦
                let (r, e, walk) = page_loop-Walk n h w o page (i + 4) two marked (ground arith) in
                (
                  r,
                  rw (more, same, inside, empty) e,
                  unsized i r (ground arith) (==→eq mark w same) (==→eq size 0 empty) walk,
                )
            | inr sized ↦
                let (r, e, walk) =
                  page_loop-Walk n h w o page (i + size) two marked (ground arith) in
                (
                  r,
                  rw (more, same, inside, sized) e,
                  next i r (ground arith) (==→eq mark w same) (ground arith) (ground arith) walk,
                )
          ]
        ]
      ]
]
  where
    is_other :
        h.free_info (page + i) ≤ 1
        → (h.free_info (page + i) == w) ≡ false
        → (h.free_info (page + i) == o) ≡ true
    is_other low differs = ground arith

-- The answer of a test for the mark `wanted`: a first byte with the reserved size 4097 decides
-- alone, and else the walk over the page from its first byte does.
pub data PageTest (h : Heap) (wanted page : ℕ) (answer : Option ℕ) : Type 0 where
  reserved :
      h.size_info page ≡ 4097
      → answer ≡ some (if h.free_info page == wanted then 1 else 0)
      → PageTest h wanted page answer
  walked :
      (r : ℕ)
      → h.size_info page ≢ 4097
      → answer ≡ some r
      → Walk h wanted page 0 r
      → PageTest h wanted page answer

first_mark : (h : Heap) (page : ℕ) → IsMarked h page → h.free_info page ≤ 1
first_mark h page marked = at_page (page + 0) (omega arith) (marked 0 (omega arith))
  where
    at_page : (k : ℕ) → k ≡ page → h.free_info k ≤ 1 → h.free_info page ≤ 1
    at_page k e low = rw (← e) low

-- Both tests are this one, on a mark.
test : Heap → (wanted other page : ℕ) → Option ℕ
test h wanted other page =
    if h.free_info page == wanted && h.size_info page == 4097
    then some 1
    else if h.free_info page == other && h.size_info page == 4097
    then some 0
    else page_loop 4097 h wanted other page 0

test-PageTest :
    (h : Heap) (wanted other page : ℕ)
    → wanted + other ≡ 1
    → IsMarked h page
    → PageTest h wanted page (test h wanted other page)
unfolding test
test-PageTest h w o page two marked = elim (Bool-cases (h.size_info page == 4097)) [
  | inl whole ↦
      reserved (==→eq (h.size_info page) 4097 whole) (rw whole (of_mark (first_mark h page marked)))
  | inr blocks ↦
      let (r, e, walk) = page_loop-Walk 4097 h w o page 0 two marked (omega arith) in
      walked r (ground arith)
        (rw blocks (rw e (of_size (h.free_info page == w) (h.free_info page == o)))) walk
]
  where
    of_mark :
        h.free_info page ≤ 1
        → (if h.free_info page == w && true
            then some 1
            else if h.free_info page == o && true
            then some 0
            else page_loop 4097 h w o page 0)
          ≡ some (if h.free_info page == w then 1 else 0)
    of_mark low = ground arith

    of_size :
        {r : ℕ} (a b : Bool)
        → (if a && false then some 1 else if b && false then some 0 else some r) ≡ some r
    of_size true true = refl
    of_size true false = refl
    of_size false true = refl
    of_size false false = refl

-- On a page of marks 0 and 1, `check_if_page_taken` and `check_if_page_freed` always return, and
-- they answer whether the blocks that are taken (or free) lead from the first byte of the page to
-- its end.
pub check_if_page_taken-PageTest :
    (h : Heap) (p : ℕ)
    → IsMarked h (u32 (4096 * p))
    → PageTest h 1 (u32 (4096 * p)) (check_if_page_taken h p)
      × PageTest h 0 (u32 (4096 * p)) (check_if_page_freed h p)
unfolding check_if_page_taken check_if_page_freed test
check_if_page_taken-PageTest h p marked = (
  test-PageTest h 1 0 (u32 (4096 * p)) refl marked,
  test-PageTest h 0 1 (u32 (4096 * p)) refl marked,
)

-- So marking the bit of a page that was found taken changes nothing but the map.
pub settle_lem :
    (h : Heap) (page bit : ℕ)
    → IsMarked h (u32 (4096 * page))
    → (m : Store) × (settle h page bit ≡ some (record h { os_memmap = m }))
      × ((m ≡ h.os_memmap) ⊎ (m ≡ set_bit h.os_memmap bit))
unfolding settle
settle_lem h page bit marked = from_answer (answered (check_if_page_taken-PageTest h page marked).0)
  where
    answered :
        {answer : Option ℕ} → PageTest h 1 (u32 (4096 * page)) answer → (r : ℕ) × (answer ≡ some r)
    answered (reserved e is) = (_, is)
    answered (walked r e is walk) = (r, is)

    not_zero : (r : ℕ) → (suc r == 0) ≡ false
    not_zero r = ground arith

    from_answer :
        (r : ℕ) × (check_if_page_taken h page ≡ some r)
        → (m : Store) × ((check_if_page_taken h page >>= (λ taken.
              some (if taken == 0 then h else record h { os_memmap = set_bit h.os_memmap bit })))
            ≡ some (record h { os_memmap = m }))
          × ((m ≡ h.os_memmap) ⊎ (m ≡ set_bit h.os_memmap bit))
    from_answer (zero, e) = (h.os_memmap, rw e refl, inl refl)
    from_answer (suc r, e) = (set_bit h.os_memmap bit, rw (e, not_zero r) refl, inr refl)
