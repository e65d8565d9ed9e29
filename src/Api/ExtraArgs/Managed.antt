-- ===== src/Api/ExtraArgs/Managed.antt =====
-- api/v1alpha1/extra_args.go: which arguments are rejected.
use Prim.Native.Char.{code}
use mathlib.Core.List.{Memᴰ}
use text.Mathlib.TextLemmas.{nil-append, cons-append}
use text.Mathlib.TextEquality.{Char-path}
use declarative_conversion_o.Prelude.{
  ◌⊎◌, All, All-at, eq_iff, and-true, or-false, Option-cases, String, ◌≡◌, ◌↔◌, refl, sym, ap, ◌∙◌,
  Bool, true, false, ◌&&◌, not, Option, none, some, List, [], ◌∷◌, inl, inr, arith, ◌==◌, nat_eq,
  any, all, Bool-cases,
}
use declarative_conversion_o.Prelude.Text.{has_prefix, append}
use declarative_conversion_o.Prelude.Result.{Result, ok, err}
use declarative_conversion_o.Api.ExtraArgs.{
  managed_flag_names, is_managed, before_equals, contains_equals, after_dashes, long_flag_name,
  takes_next, reject, validate_from, validate_webhook_server_extra_args,
}

abbrev managed_name : Option String → Bool
managed_name none = false
managed_name (some name) = is_managed name

-- The code's test of one argument.
abbrev names_managed : String → Bool
names_managed arg = managed_name (long_flag_name arg)

abbrev passes : Result String Unit → Bool
passes (ok u) = true
passes (err name) = false

-- A value has no long flag's name.
not_a_flag : (arg : String) → has_prefix arg "-" ≡ false → long_flag_name arg ≡ none
unfolding has_prefix long_flag_name
not_a_flag String.[] h = refl
not_a_flag (String.◌∷◌ c String.[]) h = refl
not_a_flag (String.◌∷◌ c (String.◌∷◌ d s)) h = ground (arith, h)

-- A result that rejects a name passes where the name is not managed and the rest does.
passes-reject :
    (o : Option String) (plain flagged : Result String Unit) (b : Bool)
    → passes plain ≡ b
    → passes flagged ≡ b
    → passes (reject o plain flagged) ≡ (not (managed_name o) && b)
passes-reject none plain flagged b p q = p
passes-reject (some name) plain flagged b p q = elim (Bool-cases (is_managed name)) [
  | inl e ↦ rw e refl
  | inr e ↦ rw e q
]

-- An argument that the loop passes over names no flag.
skipped :
    (arg a : String) (args : List String)
    → passes (validate_from false args) ≡ all (λ b. not (names_managed b)) args
    → passes (
        reject
          (long_flag_name a)
          (validate_from false args)
          (validate_from (takes_next a args) args))
      ≡ all (λ b. not (names_managed b)) (a ∷ args)
    → passes (validate_from (takes_next arg (a ∷ args)) (a ∷ args))
      ≡ all (λ b. not (names_managed b)) (a ∷ args)
unfolding validate_from takes_next
skipped arg a args plain here = elim (Bool-cases (has_prefix a "-")) [
  | inl e ↦ rw e (ground (arith, here))
  | inr e ↦ elim (Bool-cases (contains_equals arg)) [
    | inl f ↦ rw (e, f) here
    | inr f ↦ rw (e, f, not_a_flag a e) plain
  ]
]

validate_from_lem :
    (args : List String)
    → (passes (validate_from false args) ≡ all (λ arg. not (names_managed arg)) args)
      × ((arg : String)
          → passes (validate_from (takes_next arg args) args)
            ≡ all (λ a. not (names_managed a)) args)
unfolding validate_from takes_next
validate_from_lem [] = (refl, λ arg. refl)
validate_from_lem (a ∷ args) =
    let (plain, skipping) = validate_from_lem args in
    let here =
      passes-reject (long_flag_name a) (validate_from false args)
        (validate_from (takes_next a args) args) _ plain (skipping a) in
    (here, λ arg. skipped arg a args plain here)

passes-ok : (r : Result String Unit) → passes r ≡ true → r ≡ ok tt
passes-ok (ok u) h = refl
passes-ok (err name) h = cc h

-- The flag as one argument, alone or with a value after '='.
pub data Names (name : String) : String → Type 0 where
  alone : Names name (append "--" name)
  valued : (value : String) → Names name (append "--" (append name (append "=" value)))

-- The argument is `--name` or `--name=value` with the name of a managed flag.
pub record NamesManaged (arg : String) : Type 0 where
  pub name : String
  pub is_flag : Memᴰ name managed_flag_names
  pub names : Names name arg

-- The names of flags are not empty and have no '='.
abbrev Plain : String → Type 0
Plain name = (contains_equals name ≡ false) × ((name == "") ≡ false)

managed_Plain : All Plain managed_flag_names
unfolding contains_equals
managed_Plain = (
  (refl, refl),
  (
    (refl, refl),
    ((refl, refl), ((refl, refl), ((refl, refl), ((refl, refl), ((refl, refl), tt))))),
  ),
)

any-Mem : (name : String) (ns : List String) → any (λ m. m == name) ns ≡ true → Memᴰ name ns
any-Mem name [] h = cc h
any-Mem name (n ∷ ns) h = elim (Bool-cases (n == name)) [
  | inl e ↦ Memᴰ.head (sym ((eq_iff n name).0 e))
  | inr e ↦ Memᴰ.tail (any-Mem name ns (ground (arith, h)))
]

Mem-any : (name : String) (ns : List String) → Memᴰ name ns → any (λ m. m == name) ns ≡ true
Mem-any name [] m = elim m [ ]
Mem-any name (n ∷ ns) (Memᴰ.head e) = ground (arith, eq_iff n name, sym e)
Mem-any name (n ∷ ns) (Memᴰ.tail m) = ground (arith, Mem-any name ns m)

-- A text is what comes before its first '=', or that with '=' and a value after it.
before_equals_cases :
    (s : String)
    → (s ≡ before_equals s) ⊎ ((value : String) × (s ≡ append (before_equals s) (append "=" value)))
unfolding before_equals
before_equals_cases String.[] = inl refl
before_equals_cases (String.◌∷◌ c s) = elim (Bool-cases (nat_eq (code c) b'=')) [
  | inl e ↦
      let same : c ≡ "=" = Char-path c "=" (ground arith) in
      inr (s, rw e (rw (nil-append, cons-append, nil-append) (ap (λ d. String.◌∷◌ d s) same)))
  | inr e ↦ rw e elim (before_equals_cases s) [
    | inl h ↦ inl (ap (String.◌∷◌ c) h)
    | inr (value, h) ↦ inr (value, ap (String.◌∷◌ c) h ∙ sym (cons-append c _ _))
  ]
]

before_equals_whole : (s : String) → contains_equals s ≡ false → before_equals s ≡ s
unfolding before_equals contains_equals
before_equals_whole String.[] h = refl
before_equals_whole (String.◌∷◌ c s) h =
    let (first, rest) = or-false (nat_eq (code c) b'=') (contains_equals s) h in
    rw first (ap (String.◌∷◌ c) (before_equals_whole s rest))

before_equals_name :
    (s value : String) → contains_equals s ≡ false → before_equals (append s (append "=" value)) ≡ s
unfolding before_equals contains_equals
before_equals_name String.[] value h = rw (nil-append, cons-append) refl
before_equals_name (String.◌∷◌ c s) value h =
    let (first, rest) = or-false (nat_eq (code c) b'=') (contains_equals s) h in
    rw (cons-append, first) (ap (String.◌∷◌ c) (before_equals_name s value rest))

dashes : (s : String) → append "--" s ≡ String.◌∷◌ "-" (String.◌∷◌ "-" s)
dashes s = rw (cons-append, cons-append, nil-append) refl

after_dashes-dashes : (s : String) → after_dashes (append "--" s) ≡ some s
after_dashes-dashes s = rw (dashes s) refl

after_dashes-some : (arg : String) {s : String} → after_dashes arg ≡ some s → arg ≡ append "--" s
after_dashes-some String.[] h = cc h
after_dashes-some (String.◌∷◌ c String.[]) h = cc h
after_dashes-some (String.◌∷◌ c (String.◌∷◌ d t)) {s} h =
    elim (Bool-cases (nat_eq (code c) b'-' && nat_eq (code d) b'-')) [
      | inl e ↦
          let rest : t ≡ s = cc (rw e at h) in
          let first : c ≡ "-" = Char-path c "-" (ground (arith, e)) in
          let second : d ≡ "-" = Char-path d "-" (ground (arith, e)) in
          cc (dashes s, rest, first, second)
      | inr e ↦ cc (rw e at h)
    ]

is_alone : (name arg : String) → arg ≡ append "--" name → Names name arg
is_alone name arg e = rw e alone

is_valued :
    (name value arg : String) → arg ≡ append "--" (append name (append "=" value)) → Names name arg
is_valued name value arg e = rw e (valued value)

Names-managed :
    (name arg : String)
    → Plain name
    → Memᴰ name managed_flag_names
    → Names name arg
    → names_managed arg ≡ true
unfolding long_flag_name is_managed
Names-managed name _ (no_equals, filled) member alone =
    rw (after_dashes-dashes, before_equals_whole name no_equals, filled)
      (Mem-any name managed_flag_names member)
Names-managed name _ (no_equals, filled) member (valued value) =
    rw (after_dashes-dashes, before_equals_name name value no_equals, filled)
      (Mem-any name managed_flag_names member)

-- The code's test is the description.
named : (arg : String) → names_managed arg ≡ true → NamesManaged arg
unfolding long_flag_name is_managed
named arg h = elim (Option-cases (after_dashes arg)) [
  | inl e ↦ cc (rw e at h)
  | inr (s, e) ↦ elim (Bool-cases (before_equals s == "")) [
    | inl f ↦ cc (rw (e, f) at h)
    | inr f ↦ record {
      name = before_equals s;
      is_flag = any-Mem (before_equals s) managed_flag_names (rw (e, f) at h);
      names = elim (before_equals_cases s) [
        | inl q ↦
            is_alone (before_equals s) arg (after_dashes-some arg e ∙ ap (λ t. append "--" t) q)
        | inr (value, q) ↦
            is_valued (before_equals s) value arg
              (after_dashes-some arg e ∙ ap (λ t. append "--" t) q)
      ];
    }
  ]
]

managed : (arg : String) → NamesManaged arg → names_managed arg ≡ true
managed arg m =
    Names-managed m.name arg (All-at Plain m.name managed_flag_names m.is_flag managed_Plain)
      m.is_flag m.names

all_iff :
    (args : List String)
    → (all (λ arg. not (names_managed arg)) args ≡ true) ↔ All (λ arg. ¬ NamesManaged arg) args
all_iff [] = (λ h. tt, λ h. refl)
all_iff (a ∷ args) =
    let (to, from) = all_iff args in
    (
      λ h.
          let (here, rest) = and-true (not (names_managed a)) _ h in
          (λ m. cc (managed a m, here), to rest),
      λ (here, rest). elim (Bool-cases (names_managed a)) [
        | inl e ↦ absurd (here (named a e))
        | inr e ↦ ground (arith, from rest)
      ],
    )

-- Extra arguments pass exactly if none of them, at whatever place, is --name or --name=value with
-- the name of a managed flag.
pub validate_webhook_server_extra_args_iff :
    (args : List String)
    → (validate_webhook_server_extra_args args ≡ ok tt) ↔ All (λ arg. ¬ NamesManaged arg) args
unfolding validate_webhook_server_extra_args
validate_webhook_server_extra_args_iff args =
    let same = (validate_from_lem args).0 in
    let (to, from) = all_iff args in
    (λ h. to (sym same ∙ ap passes h), λ h. passes-ok (validate_from false args) (same ∙ from h))
