-- ===== src/Acpi/Power/Name.antt =====
-- When the search of kernel/power/check_shutdown_acpi.c for the name "_S5" can find it.
use john_os.Common.{
  ℕ, zero, suc, ◌+◌, ◌<◌, ◌≡◌, refl, sym, ◌∙◌, ◌≢◌, ◌⊎◌, inl, inr, Bool, false, not, none, arith,
  ◌==◌, Bool-cases,
}
use john_os.Common.Store.{Store, read32}
use john_os.MemFill.{memset2}
use john_os.MemFill.Laws.{memset2-outside}
use john_os.Text.{str_eql}
use john_os.Text.Length.{IsString}
use john_os.Text.Equal.{str_eql-literal}
use john_os.Acpi.{Acpi, read_dsdt}
use john_os.Acpi.Power.{Power, is_s5, s5_loop, check_shutdown_code}

s5_loop-none :
    (rounds : ℕ) (is_name : ℕ → Bool) (ptr : ℕ)
    → ((q : ℕ) → is_name q ≡ false)
    → s5_loop rounds is_name ptr ≡ none
unfolding s5_loop
s5_loop-none zero is_name ptr no_name = refl
s5_loop-none (suc rounds) is_name ptr no_name =
    rw (no_name ptr) (s5_loop-none rounds is_name (ptr + 1) no_name)

is_s5-garbage :
    (m : Store) (temp literal ptr : ℕ)
    → IsString m literal 3
    → (temp + 3 < literal) ⊎ (literal + 3 < temp)
    → m (temp + 3) ≢ 0
    → is_s5 m temp literal ptr ≡ false
unfolding is_s5
is_s5-garbage m temp literal ptr is far garbage =
    let m' = memset2 m temp ptr 3 in
    let kept = λ (k : ℕ) (b : k < 4). memset2-outside 3 m temp ptr (literal + k) (ground arith) in
    let is' : IsString m' literal 3 = record {
      chars = λ k b. rw (kept k (omega arith)) (is.chars k b);
      ends = kept 3 (omega arith) ∙ is.ends;
    } in
    let (sound, complete) = str_eql-literal m' temp literal 3 is' (omega arith) (omega arith) in
    elim (Bool-cases (not (str_eql m' temp literal == 0))) [
      | inr f ↦ f
      | inl t ↦ absurd (
          garbage (
            sym (memset2-outside 3 m temp ptr (temp + 3) (inl (omega arith)))
            ∙ sound t 3 (omega arith) (omega arith)
            ∙ is'.ends))
    ]

-- The fourth byte of the array is never written: where it is not 0 by chance, the name is not found,
-- whatever the table holds, and the two sleep types stay as they are.
pub check_shutdown_code-garbage :
    (s : Acpi) (p : Power) (temp_holder literal : ℕ)
    → IsString (read_dsdt s).pages.ram literal 3
    → (temp_holder + 3 < literal) ⊎ (literal + 3 < temp_holder)
    → (read_dsdt s).pages.ram (temp_holder + 3) ≢ 0
    → check_shutdown_code temp_holder literal (s, p) ≡ (read_dsdt s, p)
unfolding check_shutdown_code
check_shutdown_code-garbage s p temp literal is far garbage =
    let m = (read_dsdt s).pages.ram in
    rw
      (s5_loop-none (read_dsdt s).dsdt_code_length (is_s5 m temp literal)
        (read32 s.pages.ram (s.fadt + 40) + 36)
        (λ q. is_s5-garbage m temp literal q is far garbage))
      refl
