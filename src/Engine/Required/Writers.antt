-- ===== src/Engine/Required/Writers.antt =====
-- pkg/engine/required.go: the rules that name a path.
use mathlib.Core.List.{Memᴰ}
use declarative_conversion_o.Prelude.{
  eq_iff, ◌==◌, String, ◌≡◌, refl, sym, ◌⊎◌, inl, inr, Bool, true, List, [], ◌∷◌, Bool-cases, All,
  any, is_empty,
}
use declarative_conversion_o.Engine.Diagnostics.{RuleResult}
use declarative_conversion_o.Engine.Required.{dest_paths, once_each, DestSide, writers}

Mem-cons {ℓ} : {A : Type ℓ} (x y : A) (ys : List A) → Memᴰ x (y ∷ ys) → (x ≡ y) ⊎ Memᴰ x ys
Mem-cons x y ys (Memᴰ.head e) = inl e
Mem-cons x y ys (Memᴰ.tail m) = inr m

one_more :
    (rr by : RuleResult) (path p : String) (ps : List String) (rest : List RuleResult)
    → ((by ≡ rr) × Memᴰ path ps) ⊎ Memᴰ by rest
    → ((by ≡ rr) × Memᴰ path (p ∷ ps)) ⊎ Memᴰ by rest
one_more rr by path p ps rest (inl (e, found)) = inl (e, Memᴰ.tail found)
one_more rr by path p ps rest (inr m) = inr m

once_each_cases :
    (rr by : RuleResult) (path : String) (ps : List String) (rest : List RuleResult)
    → Memᴰ by (once_each rr path ps rest)
    → ((by ≡ rr) × Memᴰ path ps) ⊎ Memᴰ by rest
once_each_cases rr by path [] rest m = inr m
once_each_cases rr by path (p ∷ ps) rest m = elim (Bool-cases (p == path)) [
  | inl e ↦ elim (Mem-cons by rr (once_each rr path ps rest) (rw e at m)) [
    | inl same ↦ inl (same, Memᴰ.head (sym ((eq_iff p path).0 e)))
    | inr n ↦ one_more rr by path p ps rest (once_each_cases rr by path ps rest n)
  ]
  | inr e ↦ one_more rr by path p ps rest (once_each_cases rr by path ps rest (rw e at m))
]

pub writers-Mem :
    (side : DestSide) (path : String) (rrs : List RuleResult) (by : RuleResult)
    → Memᴰ by (writers side path rrs)
    → Memᴰ by rrs × Memᴰ path (dest_paths side by)
unfolding writers
writers-Mem side path [] by m = elim m [ ]
writers-Mem side path (rr ∷ rrs) by m =
    elim (once_each_cases rr by path (dest_paths side rr) (writers side path rrs) m) [
      | inl (e, found) ↦ (Memᴰ.head e, rw e found)
      | inr n ↦ let (k, found) = writers-Mem side path rrs by n in (Memᴰ.tail k, found)
    ]

once_each-none :
    (rr : RuleResult) (path : String) (ps : List String) (rest : List RuleResult)
    → is_empty (once_each rr path ps rest) ≡ true
    → (¬ Memᴰ path ps) × (is_empty rest ≡ true)
once_each-none rr path [] rest h = (λ m. elim m [ ], h)
once_each-none rr path (p ∷ ps) rest h = elim (Bool-cases (p == path)) [
  | inl e ↦ cc (rw e at h)
  | inr e ↦
      let (absent, empty) = once_each-none rr path ps rest (rw e at h) in
      (
        λ m. elim (Mem-cons path p ps m) [
          | inl same ↦ cc (e, (eq_iff p path).1 (sym same))
          | inr n ↦ absent n
        ],
        empty,
      )
]

pub unnamed :
    (side : DestSide) (path : String) (rrs : List RuleResult)
    → is_empty (writers side path rrs) ≡ true
    → All (λ rr. ¬ Memᴰ path (dest_paths side rr)) rrs
unfolding writers
unnamed side path [] h = tt
unnamed side path (rr ∷ rrs) h =
    let (absent, empty) = once_each-none rr path (dest_paths side rr) (writers side path rrs) h in
    (absent, unnamed side path rrs empty)

pub any-found :
    (p : RuleResult → Bool) (rrs : List RuleResult)
    → any p rrs ≡ true
    → (by : RuleResult) × Memᴰ by rrs × (p by ≡ true)
any-found p [] h = cc h
any-found p (rr ∷ rrs) h = elim (Bool-cases (p rr)) [
  | inl e ↦ (rr, Memᴰ.head refl, e)
  | inr e ↦ let (by, m, q) = any-found p rrs (rw e at h) in (by, Memᴰ.tail m, q)
]
