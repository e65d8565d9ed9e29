-- ===== src/Api/ExtraArgs.antt =====
-- api/v1alpha1/extra_args.go: extra arguments must not name a flag that the operator manages.
pub mod Managed
use Prim.Native.Char.{code}
use declarative_conversion_o.Prelude.{
  String, ◌≡◌, ◌↔◌, refl, sym, ap, ◌∙◌, Bool, true, false, ◌&&◌, ◌||◌, not, Option, none, some,
  List, [], ◌∷◌, inl, inr, arith, ◌==◌, nat_eq, any, all, Bool-cases, if◌then◌else◌,
}
use declarative_conversion_o.Prelude.Text.{has_prefix}
use declarative_conversion_o.Prelude.Result.{Result, ok, err}

-- operatorManagedWebhookServerFlagNames
abbrev pub managed_flag_names : List String
managed_flag_names =
    "webhook-server-name" ∷ "tls-cert-dir" ∷ "conversion-bind-address" ∷ "metrics-bind-address"
    ∷ "enable-xrd-support" ∷ "enable-crd-support" ∷ "cache-label-selector" ∷ []

unfoldable pub is_managed : String → Bool
is_managed name = any (λ m. m == name) managed_flag_names

-- name[:eq], and the whole name where it has no '='
unfoldable pub before_equals : String → String
before_equals String.[] = ""
before_equals (String.◌∷◌ c s) =
    let rest = before_equals s in if nat_eq (code c) b'=' then "" else String.◌∷◌ c rest

-- strings.Contains(arg, "=")
unfoldable pub contains_equals : String → Bool
contains_equals String.[] = false
contains_equals (String.◌∷◌ c s) = nat_eq (code c) b'=' || contains_equals s

-- strings.TrimPrefix(arg, "--"), and whether the prefix is there
abbrev pub after_dashes : String → Option String
after_dashes (String.◌∷◌ c (String.◌∷◌ d s)) =
    if nat_eq (code c) b'-' && nat_eq (code d) b'-' then some s else none
after_dashes _ = none

abbrev pub non_empty : String → Option String
non_empty name = if name == "" then none else some name

abbrev pub flag_name_of : Option String → Option String
flag_name_of none = none
flag_name_of (some name) = non_empty (before_equals name)

unfoldable pub long_flag_name : String → Option String
unfolding before_equals
long_flag_name arg = flag_name_of (after_dashes arg)

-- Whether the next argument is the value of this one, `--flag value`.
unfoldable pub takes_next : String → List String → Bool
unfolding contains_equals has_prefix
takes_next arg [] = false
takes_next arg (next ∷ rest) = not (contains_equals arg) && not (has_prefix next "-")

-- The error names the flag.
abbrev pub reject : Option String → Result String Unit → Result String Unit → Result String Unit
reject none passed flagged = passed
reject (some name) passed flagged = if is_managed name then err name else flagged

-- The loop of `ValidateWebhookServerExtraArgs`; `skip` says that it passes over this argument.
unfoldable pub validate_from : Bool → List String → Result String Unit
validate_from skip [] = ok tt
validate_from skip (arg ∷ args) =
    let plain = validate_from false args in
    let flagged = validate_from (takes_next arg args) args in
    if skip then plain else reject (long_flag_name arg) plain flagged

unfoldable pub validate_webhook_server_extra_args : List String → Result String Unit
unfolding validate_from
validate_webhook_server_extra_args args = validate_from false args
