-- ===== src/Pci/Names/Table/Reached.antt =====
-- Every name of the table of `list_pci_devices` in kernel/device/pci.c is printed for some device.
use john_os.Common.{
  ℕ, zero, ◌<◌, ◌≡◌, refl, sym, ap, ◌∙◌, ◌⊎◌, inl, inr, Bool, true, false, ◌&&◌, not, Option, none,
  some, List, [], ◌∷◌, ◌++◌, arith, ltb, ◌==◌, if◌then◌else◌, Bool-cases,
}
use john_os.Pci.Names.Table.{
  classes, device, subclass_value, described, listed_class, list_pci_devices,
}
use john_os.Pci.Names.{Row, Class, row_matches, find_row, find_class}

-- The subclass and the interface that a row asks for; where it takes any, 1 and 0.
pub func_of : Row → ℕ
func_of r = elim r.pci_func [ none ↦ 1 | some f ↦ f ]

pub progif_of : Row → ℕ
progif_of r = elim r.pci_progif [ none ↦ 0 | some i ↦ i ]

-- `r` does not match the values of a later row.
misses : Row → List Row → Bool
unfolding func_of progif_of
misses r [] = true
misses r (r' ∷ rs) = not (row_matches r (func_of r') (progif_of r')) && misses r rs

-- Every row matches its own values, which are bytes, and no row hides a later one.
fresh : List Row → Bool
unfolding misses func_of progif_of
fresh [] = true
fresh (r ∷ rs) =
    row_matches r (func_of r) (progif_of r)
    && (not (ltb 0xff (func_of r)) && (not (ltb 0xff (progif_of r)) && (misses r rs && fresh rs)))

all_fresh : List (ℕ × Class) → Bool
unfolding fresh
all_fresh [] = true
all_fresh ((t, c) ∷ cs) = fresh c.rows && all_fresh cs

-- The row stands in the list.
unfoldable pub In : Row → List Row → Type 0
In r [] = zero ≡ 1
In r (r' ∷ rs) = (r ≡ r') ⊎ In r rs

and-both : (a b : Bool) → (a && b) ≡ true → (a ≡ true) × (b ≡ true)
and-both true true e = (refl, refl)
and-both true false e = absurd (ground (arith, e))
and-both false b e = absurd (ground (arith, e))

missed :
    (r r' : Row) (rs : List Row)
    → misses r' rs ≡ true
    → In r rs
    → row_matches r' (func_of r) (progif_of r) ≡ false
unfolding misses In
missed r r' [] e h = absurd (omega (arith, h))
missed r r' (r'' ∷ rs) e h =
    let (here, rest) =
      and-both (not (row_matches r' (func_of r'') (progif_of r''))) (misses r' rs) e in
    elim h [ inl same ↦ rw same (ground (arith, here)) | inr later ↦ missed r r' rs rest later ]

find_row-In :
    (r : Row) (rs : List Row)
    → fresh rs ≡ true
    → In r rs
    → (find_row rs (func_of r) (progif_of r) ≡ some r)
      × (ltb 0xff (func_of r) ≡ false)
      × (ltb 0xff (progif_of r) ≡ false)
unfolding fresh In find_row
find_row-In r [] e h = absurd (omega (arith, h))
find_row-In r (r' ∷ rs) e h =
    let (own, e1) = and-both (row_matches r' (func_of r') (progif_of r')) _ e in
    let (low, e2) = and-both (not (ltb 0xff (func_of r'))) _ e1 in
    let (low', e3) = and-both (not (ltb 0xff (progif_of r'))) _ e2 in
    let (hides, later) = and-both (misses r' rs) (fresh rs) e3 in
    elim h [
      | inl same ↦ rw (same, own) (refl, ground (arith, low), ground (arith, low'))
      | inr there ↦
          let (found, l, l') = find_row-In r rs later there in
          rw (missed r r' rs hides there) (found, l, l')
    ]

class_or : Class → Option Class → Class
class_or c none = c
class_or c (some c') = c'

class-fresh :
    (cs : List (ℕ × Class)) (t : ℕ) (c : Class)
    → all_fresh cs ≡ true
    → find_class cs t ≡ some c
    → fresh c.rows ≡ true
unfolding all_fresh find_class class_or
class-fresh [] t c e found = rw (← ap (class_or (record { kind = ""; rows = [] })) found) refl
class-fresh ((t', c') ∷ cs) t c e found =
    let (first, later) = and-both (fresh c'.rows) (all_fresh cs) e in
    elim (Bool-cases (t == t')) [
      | inl y ↦
          let here : some c' ≡ some c = sym (rw y refl) ∙ found in
          let same : c' ≡ c = ap (class_or c') here in rw (← same) first
      | inr n ↦ class-fresh cs t c later (sym (rw n refl) ∙ found)
    ]

classes-fresh : all_fresh classes ≡ true
unfolding all_fresh fresh misses row_matches func_of progif_of
classes-fresh = refl

-- Every row of the table is printed, with the type of its class, for the subclass and the interface
-- that it asks for: no test in front of it takes its place.
pub list_pci_devices-In :
    (t : ℕ) (c : Class) (r : Row)
    → t < 256
    → find_class classes t ≡ some c
    → In r c.rows
    → list_pci_devices t (func_of r) (progif_of r) 0
      ≡ (if t == 0 && ltb 0 (func_of r) then subclass_value (func_of r) ∷ [] else [])
        ++ (device c.kind r.function ∷ [])
unfolding list_pci_devices listed_class described
list_pci_devices-In t c r h found there =
    let fresh_rows = class-fresh classes t c classes-fresh found in
    let (e, low, low') = find_row-In r c.rows fresh_rows there in
    let low_type : ltb 0xff t ≡ false = ground arith in rw (low_type, low, low', found, e) refl
