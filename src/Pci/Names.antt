-- ===== src/Pci/Names.antt =====
-- `list_pci_devices` of kernel/device/pci.c: the names that are printed for a class, a subclass and
-- a programming interface. The chain of tests of a class is a list of rows in their order, and the
-- `switch` is a list of classes.
pub mod Low
pub mod High
pub mod Table
use john_os.Common.{
  ℕ, zero, suc, ◌+◌, ◌-◌, ◌*◌, ◌/◌, ◌%◌, ◌^◌, ◌≤◌, ◌<◌, ◌≡◌, refl, sym, ap, ◌∙◌, fun_ext, ◌≢◌, ◌⊎◌,
  inl, inr, Bool, true, false, ◌&&◌, ◌||◌, not, Option, none, some, List, [], ◌∷◌, ◌++◌, arith, u8,
  u16, u32, not32, ◌<<<◌, ◌>>>◌, ltb, leb, ◌==◌, if◌then◌else◌, ==_refl, Bool-cases, eq→==, ==→eq,
  ==_iff, bit_and, bit_or, bit_xor, min, max, ◌↔◌, ◌>>=◌,
}
use Prim.Native.String.{String}

-- A test for a subclass and, where the code looks at it, for an interface, with the name that is
-- printed as the function. `none` is any value.
pub record Row : Type 0 where
  pub pci_func : Option ℕ
  pub pci_progif : Option ℕ
  pub function : String

abbrev pub row : Option ℕ → Option ℕ → String → Row
row f i name = record { pci_func = f; pci_progif = i; function = name }

-- The chain of tests of one class, and the name that is printed as the type.
pub record Class : Type 0 where
  pub kind : String
  pub rows : List Row

allows : Option ℕ → ℕ → Bool
allows none value = true
allows (some wanted) value = value == wanted

row_matches : Row → (pci_func pci_progif : ℕ) → Bool
unfolding allows
row_matches r pci_func pci_progif = allows r.pci_func pci_func && allows r.pci_progif pci_progif

-- The first row that matches.
pub find_row : List Row → (pci_func pci_progif : ℕ) → Option Row
unfolding row_matches
find_row [] f i = none
find_row (r ∷ rs) f i = let rest = find_row rs f i in if row_matches r f i then some r else rest

-- The case of a class.
unfoldable pub find_class : List (ℕ × Class) → (pci_type : ℕ) → Option Class
find_class [] t = none
find_class ((t', c) ∷ cs) t = let rest = find_class cs t in if t == t' then some c else rest
