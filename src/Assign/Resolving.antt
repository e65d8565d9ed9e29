-- ===== src/Assign/Resolving.antt =====
-- internal/assign/assign.go: every party computes the same assignment from the same servers and
-- configs, whatever order the servers are listed in.
use mathlib.Core.List.{Memᴰ, Permᴰ}
use mathlib.Core.List.Memᴰ
use mathlib.Core.List.Permᴰ
use declarative_conversion_o.Prelude.{
  String, ◌≡◌, refl, sym, ap, ◌∙◌, Bool, inl, inr, List, [], ◌∷◌, arith, ◌==◌, any, keep,
  Bool-cases, Option-cases, All,
}
use declarative_conversion_o.Prelude.Text.{str_ltb, sort_strings, insert_sorted}
use declarative_conversion_o.Prelude.Text.Order.{sort_strings-Perm}
use declarative_conversion_o.Prelude.Result.{Result, ok, err}
use declarative_conversion_o.Assign.{
  Hashing, Server, Config, AssignError, default_of, automatic, explicit, pinned, resolve_assignment,
  insert_server, sort_servers, shard_pool, sharding_enabled,
}
use declarative_conversion_o.Assign.Ranking.{Ordered}
use declarative_conversion_o.Assign.Shards.{Rated, pick_shard-order}

module _ {A : Type 0} where
  Mem-Perm : (x : A) {xs ys : List A} → Permᴰ xs ys → Memᴰ x xs → Memᴰ x ys
  Mem-Perm x Permᴰ.nil m = m
  Mem-Perm x (Permᴰ.trans p q) m = Mem-Perm x q (Mem-Perm x p m)
  Mem-Perm x (Permᴰ.cons e p) (Memᴰ.head same) = Memᴰ.head (same ∙ e)
  Mem-Perm x (Permᴰ.cons e p) (Memᴰ.tail m) = Memᴰ.tail (Mem-Perm x p m)
  Mem-Perm x (Permᴰ.swap e e') (Memᴰ.head same) = Memᴰ.tail (Memᴰ.head (same ∙ e))
  Mem-Perm x (Permᴰ.swap e e') (Memᴰ.tail (Memᴰ.head same)) = Memᴰ.head (same ∙ e')
  Mem-Perm x (Permᴰ.swap e e') (Memᴰ.tail (Memᴰ.tail m)) = Memᴰ.tail (Memᴰ.tail m)

  keep-swap :
      (f : A → Bool) (a b : A) (l : List A) → Permᴰ (keep f (a ∷ b ∷ l)) (keep f (b ∷ a ∷ l))
  keep-swap f a b l = elim (Bool-cases (f a)) [
    | inl p ↦ elim (Bool-cases (f b)) [
      | inl q ↦ rw (p, q) (Permᴰ.swap refl refl)
      | inr q ↦ rw (p, q) (Permᴰ.refl _)
    ]
    | inr p ↦ elim (Bool-cases (f b)) [
      | inl q ↦ rw (p, q) (Permᴰ.refl _)
      | inr q ↦ rw (p, q) (Permᴰ.refl _)
    ]
  ]

  keep-cons :
      (f : A → Bool) (a : A) (l m : List A)
      → Permᴰ (keep f l) (keep f m)
      → Permᴰ (keep f (a ∷ l)) (keep f (a ∷ m))
  keep-cons f a l m p = elim (Bool-cases (f a)) [
    | inl q ↦ rw q (Permᴰ.cons refl p)
    | inr q ↦ rw q p
  ]

  keep-Perm : (f : A → Bool) {xs ys : List A} → Permᴰ xs ys → Permᴰ (keep f xs) (keep f ys)
  keep-Perm f Permᴰ.nil = Permᴰ.nil
  keep-Perm f (Permᴰ.trans p q) = Permᴰ.trans (keep-Perm f p) (keep-Perm f q)
  keep-Perm f (Permᴰ.cons {a} {b} {l₁} {l₂} e p) = rw e (keep-cons f b l₁ l₂ (keep-Perm f p))
  keep-Perm f (Permᴰ.swap {a} {b} {a'} {b'} {l} e e') = rw (e, e') (keep-swap f b' a' l)

insert_server-Perm : (s : Server) (ss : List Server) → Permᴰ (insert_server s ss) (s ∷ ss)
unfolding insert_server
insert_server-Perm s [] = Permᴰ.refl (s ∷ [])
insert_server-Perm s (t ∷ ts) = elim (Bool-cases (str_ltb t.name s.name)) [
  | inl e ↦ rw e (Permᴰ.trans (Permᴰ.cons refl (insert_server-Perm s ts)) (Permᴰ.swap refl refl))
  | inr e ↦ rw e (Permᴰ.refl (s ∷ t ∷ ts))
]

sort_servers-Perm : (ss : List Server) → Permᴰ (sort_servers ss) ss
unfolding sort_servers
sort_servers-Perm [] = Permᴰ.nil
sort_servers-Perm (s ∷ ss) =
    Permᴰ.trans (insert_server-Perm s (sort_servers ss)) (Permᴰ.cons refl (sort_servers-Perm ss))

shard_pool-Perm : {ss ts : List Server} → Permᴰ ss ts → Permᴰ (shard_pool ss) (shard_pool ts)
unfolding shard_pool
shard_pool-Perm p = Permᴰ.trans (sort_servers-Perm _) (
    Permᴰ.trans (keep-Perm (λ s. sharding_enabled s.sharding) p) (Permᴰ.symm (sort_servers-Perm _)))

any-Perm : {A : Type 0} (f : A → Bool) {xs ys : List A} → Permᴰ xs ys → any f xs ≡ any f ys
any-Perm f Permᴰ.nil = refl
any-Perm f (Permᴰ.trans p q) = any-Perm f p ∙ any-Perm f q
any-Perm f (Permᴰ.cons {a} {b} {l₁} {l₂} e p) = cc (e, any-Perm f p)
any-Perm f (Permᴰ.swap {a} {b} {a'} {b'} {l} e e') = rw (e, e') (ground arith)

-- What is made of the names of the default servers, once they are sorted.
abbrev of_sorted : List String → Result AssignError String
of_sorted [] = err AssignError.no_default
of_sorted (name ∷ []) = ok name
of_sorted (a ∷ b ∷ names) = err (AssignError.multiple_defaults (a ∷ b ∷ names))

insert_sorted-cons :
    (b : String) (l : List String) → (c : String) × (r : List String) × (insert_sorted b l ≡ c ∷ r)
unfolding insert_sorted
insert_sorted-cons b [] = (b, [], refl)
insert_sorted-cons b (t ∷ l) = elim (Bool-cases (str_ltb t b)) [
  | inl e ↦ (t, insert_sorted b l, rw e refl)
  | inr e ↦ (b, t ∷ l, rw e refl)
]

of_sorted-insert :
    (a b : String) (l : List String)
    → of_sorted (insert_sorted a (insert_sorted b l))
      ≡ err (AssignError.multiple_defaults (insert_sorted a (insert_sorted b l)))
of_sorted-insert a b l =
    let (c, r, e) = insert_sorted-cons b l in
    let (d, r', e') = insert_sorted-cons a r in
    elim (Bool-cases (str_ltb c a)) [
      | inl p ↦ rw e (unfold insert_sorted in rw (p, e') refl)
      | inr p ↦ rw e (unfold insert_sorted in rw p refl)
    ]

default_of-sorted : (names : List String) → default_of names ≡ of_sorted (sort_strings names)
unfolding default_of sort_strings
default_of-sorted [] = refl
default_of-sorted (a ∷ []) = unfold insert_sorted in refl
default_of-sorted (a ∷ b ∷ names) = sym (of_sorted-insert a b (sort_strings names))

default_of-Perm : {l m : List String} → Permᴰ l m → default_of l ≡ default_of m
default_of-Perm p =
    default_of-sorted _ ∙ ap of_sorted (sort_strings-Perm p) ∙ sym (default_of-sorted _)

module _ (h : Hashing) (o : Ordered h) where
  automatic-Perm :
      (key : String) {ss ts p q : List Server}
      → Permᴰ ss ts
      → Permᴰ p q
      → All (Rated h o key) p
      → automatic h key ss p ≡ automatic h key ts q
  unfolding automatic
  automatic-Perm key {p = []} {q = []} perm pools r =
      default_of-Perm (Permᴰ.map (λ (s : Server). s.name) (keep-Perm (λ s. s.default) perm))
  automatic-Perm key {p = []} {q = t ∷ q} perm pools r =
      absurd (Memᴰ.not-nil (Mem-Perm t (Permᴰ.symm pools) (Memᴰ.head refl)))
  automatic-Perm key {p = s ∷ p} {q = []} perm pools r =
      absurd (Memᴰ.not-nil (Mem-Perm s pools (Memᴰ.head refl)))
  automatic-Perm key {p = s ∷ p} {q = t ∷ q} perm pools r = ap ok (
      pick_shard-order h o key (s ∷ p) (t ∷ q) r (λ x m. Mem-Perm x pools m)
        (λ x m. Mem-Perm x (Permᴰ.symm pools) m))

  -- Two parties that list the same servers in different orders resolve a config to the same server
  -- or fail with the same error, if the scores of the pool are numbers above minus infinity.
  pub resolve_assignment-Perm :
      (cfg : Config) (ss ts : List Server)
      → Permᴰ ss ts
      → All (Rated h o cfg.shard_key) (shard_pool ss)
      → resolve_assignment h cfg ss ≡ resolve_assignment h cfg ts
  unfolding resolve_assignment explicit
  resolve_assignment-Perm cfg ss ts perm r = elim (Option-cases (pinned cfg.webhook_server_ref)) [
    | inl e ↦ rw e (automatic-Perm cfg.shard_key perm (shard_pool-Perm perm) r)
    | inr (name, e) ↦ rw (e, any-Perm (λ s. s.name == name) perm) refl
  ]
