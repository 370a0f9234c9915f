-- ===== src/Generate/Sums.antt =====
-- Sums of numbers that may be missing, for the usage that generate_text adds up.
use ai_sdk_cpp.Prelude.{
  ℕ, ◌+◌, ◌≡◌, refl, ap, List, [], ◌∷◌, ◌++◌, append-nil, Option, none, some, arith,
}
use ai_sdk_cpp.Generate.{add_total}

-- The numbers with one more in front, if there is one.
abbrev pub present : Option ℕ → List ℕ → List ℕ
present none ns = ns
present (some n) ns = n ∷ ns

abbrev pub sum : List ℕ → ℕ
sum [] = 0
sum (n ∷ ns) = n + sum ns

-- Their sum, if there are any.
abbrev pub sum_of : List ℕ → Option ℕ
sum_of [] = none
sum_of (n ∷ ns) = some (sum (n ∷ ns))

pub present-append : (o : Option ℕ) (ms ns : List ℕ) → present o (ms ++ ns) ≡ present o ms ++ ns
present-append none ms ns = refl
present-append (some n) ms ns = refl

sum-append : (ns : List ℕ) (n : ℕ) → sum (ns ++ n ∷ []) ≡ sum ns + n
sum-append [] n = omega arith
sum-append (m ∷ ns) n = omega (arith, sum-append ns n)

pub sum_of-present :
    (ns : List ℕ) (o : Option ℕ) → sum_of (ns ++ present o []) ≡ add_total (sum_of ns) o
unfolding add_total
sum_of-present ns none = ap sum_of (append-nil ns)
sum_of-present [] (some n) = ap some (omega arith)
sum_of-present (m ∷ ns) (some n) = ap some (omega (arith, sum-append ns n))
