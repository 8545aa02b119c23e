-- ===== src/AutoGen/Order/Distinct.antt =====
-- Lists of identifiers without a repetition.
use gemini_agent_lib.Prelude.{
  suc, ◌≤◌, String, ◌≡◌, refl, sym, ap, subst, Bool, true, false, ◌||◌, Bool-cases, inl, inr, List,
  [], ◌∷◌, length, arith, ◌==◌, eq_iff, if◌then◌else◌,
}
use gemini_agent_lib.AutoGen.Order.Counts.{mem}
use gemini_agent_lib.AutoGen.Order.Topology.{AllNew}

abbrev Distinct : List String → Type 0
Distinct [] = Unit
Distinct (x ∷ xs) = (mem xs x ≡ false) × Distinct xs

AllNew-absent :
    (done xs : List String) (x : String) → AllNew done xs → mem done x ≡ true → mem xs x ≡ false
AllNew-absent done [] x h m = refl
AllNew-absent done (y ∷ ys) x (p, h) m = elim (Bool-cases (y == x)) [
  | inl q ↦
      let same = (eq_iff y x).0 q in
      let missing = subst (λ z. mem done z ≡ false) same p in ground (arith, m, missing)
  | inr q ↦ ground (arith, q, AllNew-absent (y ∷ done) ys x h (ground (arith, m)))
]

AllNew-Distinct : (done xs : List String) → AllNew done xs → Distinct xs
AllNew-Distinct done [] h = tt
AllNew-Distinct done (x ∷ xs) (p, h) =
    (AllNew-absent (x ∷ done) xs x h (ground (arith, eq_iff x x)), AllNew-Distinct (x ∷ done) xs h)

-- a list without the first `x` in it
delete : String → List String → List String
delete x [] = []
delete x (y ∷ ys) = let rest = delete x ys in if y == x then ys else y ∷ rest

length-delete :
    (x : String) (ys : List String) → mem ys x ≡ true → suc (length (delete x ys)) ≡ length ys
unfolding delete
length-delete x [] m = cc
length-delete x (y ∷ ys) m = elim (Bool-cases (y == x)) [
  | inl q ↦ rw q refl
  | inr q ↦ let rest = length-delete x ys (ground (arith, m, q)) in rw q (ap suc rest)
]

split_mem : (a b c : Bool) → (a || b) ≡ true → (b ≡ true → c ≡ true) → (a || c) ≡ true
split_mem true b c h k = refl
split_mem false b c h k = k h

mem-delete :
    (x z : String) (ys : List String)
    → (x == z) ≡ false
    → mem ys z ≡ true
    → mem (delete x ys) z ≡ true
unfolding delete
mem-delete x z [] ne m = cc
mem-delete x z (y ∷ ys) ne m = elim (Bool-cases (y == x)) [
  | inl q ↦
      let same = (eq_iff y x).0 q in
      let other : (y == z) ≡ false = subst (λ v. (v == z) ≡ false) (sym same) ne in
      rw q (ground (arith, m, other))
  | inr q ↦ rw q (split_mem (y == z) (mem ys z) (mem (delete x ys) z) m (mem-delete x z ys ne))
]

apart : (x z : String) (xs : List String) → mem xs x ≡ false → mem xs z ≡ true → (x == z) ≡ false
apart x z xs p m = elim (Bool-cases (x == z)) [
  | inl q ↦
      let missing = subst (λ v. mem xs v ≡ false) ((eq_iff x z).0 q) p in ground (arith, m, missing)
  | inr q ↦ q
]

-- As many, and no more, if every one is in the other list.
length-le :
    (xs ys : List String)
    → Distinct xs
    → ((z : String) → mem xs z ≡ true → mem ys z ≡ true)
    → length xs ≤ length ys
length-le [] ys h sub = omega arith
length-le (x ∷ xs) ys (p, h) sub =
    let there = sub x (ground (arith, eq_iff x x)) in
    let rest =
      length-le xs (delete x ys) h
        (λ z m. mem-delete x z ys (apart x z xs p m) (sub z (ground (arith, m)))) in
    omega (arith, rest, length-delete x ys there)

pub length_same :
    (xs ys : List String)
    → AllNew [] xs
    → AllNew [] ys
    → ((z : String) → mem xs z ≡ true → mem ys z ≡ true)
    → ((z : String) → mem ys z ≡ true → mem xs z ≡ true)
    → length xs ≡ length ys
length_same xs ys hx hy sub sup = omega (
  arith,
  length-le xs ys (AllNew-Distinct [] xs hx) sub,
  length-le ys xs (AllNew-Distinct [] ys hy) sup,
)
