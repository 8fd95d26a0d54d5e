-- ===== src/Acpi/Search.antt =====
-- What `find_rsdp` and the searches for a table in kernel/power/using_acpi.c find.
use john_os.Common.{
  ℕ, ◌+◌, ◌-◌, ◌*◌, ◌≤◌, ◌<◌, ◌≡◌, refl, sym, ap, ◌∙◌, ◌⊎◌, inl, inr, Bool, true, ◌&&◌, arith, ltb,
  leb, ◌==◌, if◌then◌else◌, ==_refl, Bool-cases, ◌↔◌,
}
use john_os.Common.Store.{Store}
use john_os.MemFill.Laws.{memset2_lem}
use john_os.Text.Length.{IsString}
use john_os.Text.Equal.{str_eql-literal}
use john_os.Acpi.First.{
  FirstOf, NoneOf, FirstOf-cases, rsdp_loop-first, rsdp_loop-none, table_loop-first,
  table_loop-none,
}
use john_os.Acpi.{find_rsdp, Acpi, Arrays, find_table, table_at, signature, same_signature}

-- The `n` bytes at `p` are those at `literal`.
abbrev pub Signed : Store → (literal p n : ℕ) → Type 0
Signed m literal p n = (k : ℕ) → k < n → m (p + k) ≡ m (literal + k)

-- The array of `n + 1` bytes at `temp` is apart from the `n + 1` bytes of the literal.
abbrev pub Apart : (temp literal n : ℕ) → Type 0
Apart temp literal n = (temp + n < literal) ⊎ (literal + n < temp)

signature-at :
    (m : Store) (temp p n a : ℕ)
    → (temp + n ≤ p) ⊎ (p + n ≤ temp)
    → signature m temp p n a ≡ (
        if a == temp + n
        then 0
        else if leb temp a && ltb a (temp + n)
        then m (p + a - temp)
        else m a)
unfolding signature
signature-at m temp p n a apart = ground (arith, memset2_lem n m temp p a apart)

signature-copy :
    (m : Store) (temp p n k : ℕ)
    → (temp + n ≤ p) ⊎ (p + n ≤ temp)
    → k < n
    → signature m temp p n (temp + k) ≡ m (p + k)
signature-copy m temp p n k apart below =
    let e : p + (temp + k) - temp ≡ p + k = omega arith in
    ground (arith, signature-at m temp p n (temp + k) apart, ap m e)

signature-literal :
    (m : Store) (temp literal p n k : ℕ)
    → (temp + n ≤ p) ⊎ (p + n ≤ temp)
    → Apart temp literal n
    → k < n + 1
    → signature m temp p n (literal + k) ≡ m (literal + k)
signature-literal m temp literal p n k apart far below =
    ground (arith, signature-at m temp p n (literal + k) apart)

signature-end : (m : Store) (temp p n : ℕ) → signature m temp p n (temp + n) ≡ 0
unfolding signature
signature-end m temp p n = rw (==_refl (temp + n)) refl

-- The test holds exactly for the bytes of the literal.
same_signature_iff :
    (m : Store) (temp literal p n : ℕ)
    → IsString m literal n
    → 1 ≤ n
    → n ≤ 127
    → Apart temp literal n
    → (temp + n ≤ p) ⊎ (p + n ≤ temp)
    → (same_signature m temp literal p n ≡ true) ↔ Signed m literal p n
unfolding same_signature
same_signature_iff m temp literal p n is low top far apart =
    let m' = signature m temp p n in
    let kept = λ (k : ℕ) (b : k < n + 1). signature-literal m temp literal p n k apart far b in
    let copy = λ (k : ℕ) (b : k < n). signature-copy m temp p n k apart b in
    let is' : IsString m' literal n = record {
      chars = λ k b. rw (kept k (omega arith)) (is.chars k b);
      ends = kept n (omega arith) ∙ is.ends;
    } in
    let (sound, complete) = str_eql-literal m' temp literal n is' low top in
    (
      λ r k b. sym (copy k b) ∙ sound r k (omega arith) (omega arith) ∙ kept k (omega arith),
      λ s. complete (λ k a b. elim (Bool-cases (k == n)) [
        | inl last ↦
            let e : k ≡ n = ground arith in
            ap (λ j. m' (temp + j)) e
            ∙ signature-end m temp p n
            ∙ sym (ap (λ j. m' (literal + j)) e ∙ is'.ends)
        | inr inside ↦ let below : k < n = ground arith in copy k below ∙ s k below ∙ sym (kept k b)
      ]),
    )

-- Of `n`-byte signatures at the places `at 0`, `at 1` and so on, number `i` is the first that is the
-- literal.
pub record FirstSigned (m : Store) (literal n : ℕ) (at : ℕ → ℕ) (count i : ℕ) : Type 0 where
  pub below : i < count
  pub signed : Signed m literal (at i) n
  pub before : (j : ℕ) → j < i → ¬ Signed m literal (at j) n

abbrev pub NoneSigned : (m : Store) (literal n : ℕ) (at : ℕ → ℕ) (count : ℕ) → Type 0
NoneSigned m literal n at count = (j : ℕ) → j < count → ¬ Signed m literal (at j) n

-- A test of the places that holds exactly for the literal.
abbrev pub Tests :
    (m : Store) (literal n : ℕ) (at : ℕ → ℕ) (count : ℕ) (is : ℕ → Bool) (start step : ℕ) → Type 0
Tests m literal n at count is start step =
    (j : ℕ) → j < count → (is (start + step * j) ≡ true) ↔ Signed m literal (at j) n

FirstOf-FirstSigned :
    (m : Store) (literal n : ℕ) (at : ℕ → ℕ) (count : ℕ) (is : ℕ → Bool) (start step i : ℕ)
    → Tests m literal n at count is start step
    → FirstOf is start step count i
    → FirstSigned m literal n at count i
FirstOf-FirstSigned m literal n at count is start step i tests f = record {
  below = f.below;
  signed = (tests i f.below).0 f.matched;
  before = λ j b signed.
      let yes = (tests j (omega (arith, f.below))).1 signed in
      let other = f.before j b in absurd (ground arith);
}

NoneOf-NoneSigned :
    (m : Store) (literal n : ℕ) (at : ℕ → ℕ) (count : ℕ) (is : ℕ → Bool) (start step : ℕ)
    → Tests m literal n at count is start step
    → NoneOf is start step count
    → NoneSigned m literal n at count
NoneOf-NoneSigned m literal n at count is start step tests none_of j b signed =
    let yes = (tests j b).1 signed in let other = none_of j b in absurd (ground arith)

-- The search sets the address to that of the first of the 8192 places of 16 bytes from 0xe0000 on
-- with the signature "RSD PTR ", and changes nothing where there is none.
pub find_rsdp-First :
    (s : Acpi) (temp_str literal : ℕ)
    → IsString s.pages.ram literal 8
    → Apart temp_str literal 8
    → (temp_str + 8 ≤ 0xe0000) ⊎ (0x100000 ≤ temp_str)
    → ((i : ℕ) × FirstSigned s.pages.ram literal 8 (λ i. 0xe0000 + 16 * i) 8192 i
        × (find_rsdp temp_str literal s ≡ record s { rsdp_address = 0xe0000 + 16 * i }))
      ⊎ (NoneSigned s.pages.ram literal 8 (λ i. 0xe0000 + 16 * i) 8192
          × (find_rsdp temp_str literal s ≡ s))
unfolding find_rsdp
find_rsdp-First s temp_str literal is far outside =
    let m = s.pages.ram in
    let test : ℕ → Bool = λ p. same_signature m temp_str literal p 8 in
    let tests : Tests m literal 8 (λ i. 0xe0000 + 16 * i) 8192 test 0xe0000 16 = λ j b.
      same_signature_iff m temp_str literal (0xe0000 + 16 * j) 8 is (omega arith) (omega arith) far
        (ground arith) in
    elim (FirstOf-cases 8192 test 0xe0000 16) [
      | inl (i, f) ↦ inl (
        i,
        FirstOf-FirstSigned m literal 8 (λ i. 0xe0000 + 16 * i) 8192 test 0xe0000 16 i tests f,
        rw (rsdp_loop-first 8192 test 0xe0000 i f)
            (ap (λ a. record s { rsdp_address = a }) (omega arith)),
      )
      | inr none_of ↦ inr (
        NoneOf-NoneSigned m literal 8 (λ i. 0xe0000 + 16 * i) 8192 test 0xe0000 16 tests none_of,
        rw (rsdp_loop-none 8192 test 0xe0000 none_of) refl,
      )
    ]

-- The search for a table gives the first entry of the array whose table has the signature, and the
-- flag 0 where there is none.
pub find_table-First :
    (arrays : Arrays) (s : Acpi) (signatures literal : ℕ)
    → IsString s.pages.ram literal 4
    → ((a : ℕ) → a < s.rsdt_entries → Apart (signatures + 5 * a) literal 4)
    → ((a : ℕ)
        → a < s.rsdt_entries
        → (signatures + 5 * a + 4 ≤ table_at arrays s.pages.ram a)
          ⊎ (table_at arrays s.pages.ram a + 4 ≤ signatures + 5 * a))
    → ((i : ℕ) × FirstSigned s.pages.ram literal 4 (table_at arrays s.pages.ram) s.rsdt_entries i
        × (find_table arrays signatures literal s ≡ (1, i)))
      ⊎ (NoneSigned s.pages.ram literal 4 (table_at arrays s.pages.ram) s.rsdt_entries
          × (find_table arrays signatures literal s ≡ (0, 0)))
unfolding find_table
find_table-First arrays s signatures literal is far outside =
    let m = s.pages.ram in
    let at : ℕ → ℕ = table_at arrays m in
    let n = s.rsdt_entries in
    let test : ℕ → Bool = λ a. same_signature m (signatures + 5 * a) literal (at a) 4 in
    let tests : Tests m literal 4 at n test 0 1 = λ j b.
      let e : 0 + 1 * j ≡ j = omega arith in
      rw e (
        same_signature_iff m (signatures + 5 * j) literal (at j) 4 is (omega arith) (omega arith)
          (far j b) (outside j b)) in
    elim (FirstOf-cases n test 0 1) [
      | inl (i, f) ↦ inl (
        i,
        FirstOf-FirstSigned m literal 4 at n test 0 1 i tests f,
        table_loop-first n test 0 i f ∙ ap (λ q. (1, q)) (omega arith),
      )
      | inr none_of ↦ inr (
        NoneOf-NoneSigned m literal 4 at n test 0 1 tests none_of,
        table_loop-none n test 0 none_of,
      )
    ]
