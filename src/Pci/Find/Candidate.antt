-- ===== src/Pci/Find/Candidate.antt =====
-- What `find_device` of kernel/device/pci.c finds.
use john_os.Common.{
  ℕ, ◌≤◌, ◌<◌, ◌≡◌, refl, sym, ap, ◌∙◌, ◌≢◌, ◌⊎◌, inl, inr, true, false, Option, none, some, arith,
  ◌==◌, if◌then◌else◌, Bool-cases, ==→eq,
}
use john_os.Pci.{pci_config_rw}
use john_os.Pci.Find.{
  Place, is_multifunction, matches, try_function, find_function, find_on_bus, find_place,
}
use john_os.Pci.Find.First.{option-cases, first-cases, is_some, some≢none}

-- A function that `find_device` looks at, with the class, subclass and interface that are asked for:
-- of a device with several functions one from 1 to 7, of another one function 0.
pub record Candidate (config : ℕ → ℕ) (c s i b d f : ℕ) : Type 0 where
  pub present : pci_config_rw config b d 0 0 ≢ 0xFFFF
  pub asked : matches config c s i b d f ≡ true
  pub searched : if is_multifunction config b d then (1 ≤ f) × (f < 8) else f ≡ 0

-- `b`, `d`, `f` comes before the place in the order of the loops.
pub Earlier : (b d f : ℕ) → Place → Type 0
Earlier b d f p =
    (b < p.bus) ⊎ ((b ≡ p.bus) × ((d < p.device) ⊎ ((d ≡ p.device) × (f < p.function))))

place : (b d f : ℕ) → Place
place b d f = record { bus = b; device = d; function = f }

-- The outcome for one device.
abbrev pub Searched : (ℕ → ℕ) → (c s i b d : ℕ) → Option Place → Type 0
Searched config c s i b d o =
    ((o ≡ none) × ((f : ℕ) → ¬ Candidate config c s i b d f))
    ⊎ ((f : ℕ) × (o ≡ some (record { bus = b; device = d; function = f }))
        × Candidate config c s i b d f
        × ((f' : ℕ) → f' < f → ¬ Candidate config c s i b d f'))

-- A function that does not match is passed over, and one that does is taken.
try-none :
    (config : ℕ → ℕ) (c s i b d f : ℕ)
    → try_function config c s i b d f ≡ none
    → matches config c s i b d f ≡ false
unfolding try_function is_some
try-none config c s i b d f e = elim (Bool-cases (matches config c s i b d f)) [
  | inr n ↦ n
  | inl y ↦
      let taken : true ≡ is_some (try_function config c s i b d f) = rw y refl in
      absurd (ground (arith, taken ∙ ap is_some e))
]

try-some :
    (config : ℕ → ℕ) (c s i b d f : ℕ) (p : Place)
    → try_function config c s i b d f ≡ some p
    → (matches config c s i b d f ≡ true) × (try_function config c s i b d f ≡ some (place b d f))
unfolding try_function is_some place
try-some config c s i b d f p e = elim (Bool-cases (matches config c s i b d f)) [
  | inl y ↦ (y, rw y refl)
  | inr n ↦
      let passed : is_some (try_function config c s i b d f) ≡ false = rw n refl in
      absurd (ground (arith, sym passed ∙ ap is_some e))
]

single_function :
    (config : ℕ → ℕ) (c s i b d f : ℕ)
    → is_multifunction config b d ≡ false
    → Candidate config c s i b d f
    → f ≡ 0
single_function config c s i b d f e k = rw e at k.searched

multi_function :
    (config : ℕ → ℕ) (c s i b d f : ℕ)
    → is_multifunction config b d ≡ true
    → Candidate config c s i b d f
    → (1 ≤ f) × (f < 8)
multi_function config c s i b d f e k = rw e at k.searched

unasked :
    (config : ℕ → ℕ) (c s i b d g f : ℕ)
    → matches config c s i b d g ≡ false
    → Candidate config c s i b d f
    → f ≡ g
    → ⊥
unasked config c s i b d g f n k e =
    let m : matches config c s i b d g ≡ true = rw (← e) k.asked in
    absurd (ground (arith, sym n ∙ m))

find_function-Searched :
    (config : ℕ → ℕ) (c s i b d : ℕ) → Searched config c s i b d (find_function config c s i b d)
unfolding find_function place
find_function-Searched config c s i b d =
    elim (Bool-cases (pci_config_rw config b d 0 0 == 0xFFFF)) [
      | inl absent ↦ rw absent (inl (refl, λ f k. k.present (==→eq _ _ absent)))
      | inr present ↦
          let there : pci_config_rw config b d 0 0 ≢ 0xFFFF = ground (arith, present) in
          elim (Bool-cases (is_multifunction config b d)) [
            | inr single ↦
                let only : (f : ℕ) → Candidate config c s i b d f → f ≡ 0 =
                  λ f k. single_function config c s i b d f single k in
                elim (option-cases (try_function config c s i b d 0)) [
                  | inr (p, e) ↦
                      let (m, t) = try-some config c s i b d 0 p e in
                      rw (present, single)
                        (inr (
                          0,
                          t,
                          record { present = there; asked = m; searched = rw single refl },
                          λ f h. absurd (omega arith),
                        ))
                  | inl e ↦
                      let m = try-none config c s i b d 0 e in
                      rw (present, single)
                        (inl (e, λ f k. unasked config c s i b d 0 f m k (only f k)))
                ]
            | inl multi ↦
                let range : (f : ℕ) → Candidate config c s i b d f → (1 ≤ f) × (f < 8) =
                  λ f k. multi_function config c s i b d f multi k in
                elim (first-cases 7 (try_function config c s i b d) 1) [
                  | inl (r, n) ↦
                      rw (present, multi)
                        (inl (
                          r,
                          λ f k.
                              unasked config c s i b d f f
                                (try-none config c s i b d f (n f (range f k).0 (range f k).1)) k
                                refl,
                        ))
                  | inr (p, r, a) ↦
                      let (m, t) = try-some config c s i b d a.at p a.result in
                      rw (present, multi)
                        (inr (
                          a.at,
                          r ∙ sym a.result ∙ t,
                          record {
                            present = there;
                            asked = m;
                            searched = rw multi (a.from, a.below);
                          },
                          λ f h k.
                              unasked config c s i b d f f
                                (try-none config c s i b d f (a.before f (range f k).0 h)) k refl,
                        ))
                ]
          ]
    ]

none-Candidate :
    (config : ℕ → ℕ) (c s i b d : ℕ)
    → find_function config c s i b d ≡ none
    → (f : ℕ) → ¬ Candidate config c s i b d f
none-Candidate config c s i b d n = elim (find_function-Searched config c s i b d) [
  | inl (e, none_there) ↦ none_there
  | inr (f, e, k, before) ↦ λ f' k'. some≢none _ _ e n
]

-- The outcome for one bus.
abbrev OnBus : (ℕ → ℕ) → (c s i b : ℕ) → Option Place → Type 0
OnBus config c s i b o =
    ((o ≡ none) × ((d f : ℕ) → d < 32 → ¬ Candidate config c s i b d f))
    ⊎ ((d : ℕ) × (f : ℕ) × (o ≡ some (record { bus = b; device = d; function = f }))
        × (d < 32)
        × Candidate config c s i b d f
        × ((d' f' : ℕ) → (d' < d) ⊎ ((d' ≡ d) × (f' < f)) → ¬ Candidate config c s i b d' f'))

find_on_bus-OnBus :
    (config : ℕ → ℕ) (c s i b : ℕ) → OnBus config c s i b (find_on_bus config c s i b)
unfolding find_on_bus
find_on_bus-OnBus config c s i b = elim (first-cases 32 (find_function config c s i b) 0) [
  | inl (r, n) ↦
      inl (r, λ d f h. none-Candidate config c s i b d (n d (omega arith) (omega arith)) f)
  | inr (p, r, a) ↦ elim (find_function-Searched config c s i b a.at) [
    | inl (e, none_there) ↦ absurd (some≢none _ _ a.result e)
    | inr (f, e, k, before) ↦ inr (
      a.at,
      f,
      r ∙ sym a.result ∙ e,
      omega (arith, a.below),
      k,
      λ d' f' earlier. elim earlier [
        | inl h ↦ none-Candidate config c s i b d' (a.before d' (omega arith) h) f'
        | inr (same, h) ↦ rw same (before f' h)
      ],
    )
  ]
]

none_on_bus :
    (config : ℕ → ℕ) (c s i b : ℕ)
    → find_on_bus config c s i b ≡ none
    → (d f : ℕ) → d < 32
    → ¬ Candidate config c s i b d f
none_on_bus config c s i b n = elim (find_on_bus-OnBus config c s i b) [
  | inl (e, none_there) ↦ none_there
  | inr (d, f, e, hd, k, before) ↦ λ d' f' h k'. some≢none _ _ e n
]

-- `find_device` finds the function of the asked kind that comes first in the order of buses, devices
-- and functions, and reports that there is none only if there is none. Function 0 of a device with
-- several functions does not count.
pub find_place-Earliest :
    (config : ℕ → ℕ) (c s i : ℕ)
    → ((find_place config c s i ≡ none)
        × ((b d f : ℕ) → b < 256 → d < 32 → ¬ Candidate config c s i b d f))
      ⊎ ((p : Place) × (find_place config c s i ≡ some p)
          × (p.bus < 256)
          × (p.device < 32)
          × Candidate config c s i p.bus p.device p.function
          × ((b d f : ℕ) → d < 32 → Earlier b d f p → ¬ Candidate config c s i b d f))
unfolding find_place Earlier
find_place-Earliest config c s i = elim (first-cases 256 (find_on_bus config c s i) 0) [
  | inl (r, n) ↦
      inl (r, λ b d f hb hd. none_on_bus config c s i b (n b (omega arith) (omega arith)) d f hd)
  | inr (p, r, a) ↦ elim (find_on_bus-OnBus config c s i a.at) [
    | inl (e, none_there) ↦ absurd (some≢none _ _ a.result e)
    | inr (d, f, e, hd, k, before) ↦ inr (
      record { bus = a.at; device = d; function = f },
      r ∙ sym a.result ∙ e,
      omega (arith, a.below),
      hd,
      k,
      λ b' d' f' h earlier. elim earlier [
        | inl l ↦ none_on_bus config c s i b' (a.before b' (omega arith) l) d' f' h
        | inr (same, l) ↦ rw same (before d' f' l)
      ],
    )
  ]
]
