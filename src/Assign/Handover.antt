-- ===== src/Assign/Handover.antt =====
-- internal/assign/assign.go: the instance that a target still points at is the one whose Service
-- the operator wrote into it.
use Prim.Native.Char.{Char, code}
use text.Mathlib.TextLemmas.{
  nil-append, cons-append, append_assoc, append_cancel_right, append-eq-nil_iff, cons≢nil,
}
use text.Mathlib.TextEquality.{Char-path}
use declarative_conversion_o.Prelude.{
  String, ◌≡◌, ◌≢◌, ◌↔◌, refl, sym, ◌∙◌, Bool, true, false, ◌&&◌, ◌||◌, not, inl, inr, arith, ◌==◌,
  eq_iff, nat_eq, Bool-cases, List,
}
use declarative_conversion_o.Prelude.Text.{append, has_prefix, single}
use declarative_conversion_o.Prelude.Text.Splitting.{Lacks}
use declarative_conversion_o.Prelude.Result.{ok}
use declarative_conversion_o.Assign.{
  Hashing, Server, Config, webhook_server_service_name, target_points_at, is_assigned_to, served_by,
  resolve_assignment,
}

-- internal/controller: fmt.Sprintf("https://%s.%s.svc%s", cwsServiceName(serverName), …)
unfoldable pub webhook_url : String → String → String → String
webhook_url server_name namespace path =
    append
      (append
        (append (append (append "https://" (webhook_server_service_name server_name)) ".")
          namespace)
        ".svc")
      path

has_prefix-cons :
    (c d : Char) (s p : String)
    → has_prefix (String.◌∷◌ c s) (String.◌∷◌ d p) ≡ (nat_eq (code c) (code d) && has_prefix s p)
unfolding has_prefix
has_prefix-cons c d s p = refl

has_prefix-nil : (s : String) → has_prefix s "" ≡ true
unfolding has_prefix
has_prefix-nil s = refl

has_prefix-common : (p s t : String) → has_prefix (append p s) (append p t) ≡ has_prefix s t
has_prefix-common String.[] s t = rw (nil-append, nil-append) refl
has_prefix-common (String.◌∷◌ c p) s t =
    rw (cons-append, cons-append, has_prefix-cons) (ground (arith, has_prefix-common p s t))

has_prefix-append : (s t : String) → has_prefix (append s t) s ≡ true
has_prefix-append String.[] t = has_prefix-nil _
has_prefix-append (String.◌∷◌ c s) t =
    rw (cons-append, has_prefix-cons) (ground (arith, has_prefix-append s t))

-- Text up to the first `c` decides.
delimited :
    (c : Char) (a b r : String)
    → Lacks c a
    → Lacks c b
    → has_prefix (append a (append (single c) r)) (append b (single c)) ≡ true
    → a ≡ b
delimited c String.[] String.[] r la lb h = refl
delimited c String.[] (String.◌∷◌ d b) r la lb h =
    ground (arith, rw (nil-append, cons-append, cons-append, has_prefix-cons) at h)
delimited c (String.◌∷◌ e a) String.[] r la lb h =
    ground (arith, rw (cons-append, nil-append, has_prefix-cons) at h)
delimited c (String.◌∷◌ e a) (String.◌∷◌ d b) r la lb h =
    let h' = rw (cons-append e a, cons-append d b, has_prefix-cons) at h in
    let same : code e ≡ code d = ground arith in
    let rest : a ≡ b = delimited c a b r la.1 lb.1 (ground arith) in cc (Char-path e d same, rest)

Lacks-append : (c : Char) (s t : String) → Lacks c s → Lacks c t → Lacks c (append s t)
Lacks-append c String.[] t h k = rw nil-append k
Lacks-append c (String.◌∷◌ d s) t h k = rw cons-append (h.0, Lacks-append c s t h.1 k)

abbrev lacks : Char → String → Bool
lacks c String.[] = true
lacks c (String.◌∷◌ d s) = not (nat_eq (code d) (code c)) && lacks c s

Lacks-lacks : (c : Char) (s : String) → lacks c s ≡ true → Lacks c s
Lacks-lacks c String.[] h = tt
Lacks-lacks c (String.◌∷◌ d s) h = (ground arith, Lacks-lacks c s (ground arith))

abbrev pub dot : Char
dot = "."

service_Lacks : (name : String) → Lacks dot name → Lacks dot (webhook_server_service_name name)
unfolding webhook_server_service_name
service_Lacks name h =
    Lacks-append dot name "-webhook-server" h (Lacks-lacks dot "-webhook-server" refl)

service-injective :
    (a b : String) → webhook_server_service_name a ≡ webhook_server_service_name b → a ≡ b
unfolding webhook_server_service_name
service-injective a b h = append_cancel_right a b "-webhook-server" h

append-ne-nil : (s t : String) → s ≢ "" → append s t ≢ ""
append-ne-nil s t ne e = ne (append-eq-nil_iff.0 e).0

-- The URL of a server, with what follows the first dot apart.
url-split :
    (a namespace path : String)
    → webhook_url a namespace path
      ≡ append "https://" (
          append
            (webhook_server_service_name a)
            (append (single dot) (append namespace (append ".svc" path))))
unfolding webhook_url
url-split a namespace path = simp append_assoc

url-ne-empty : (a namespace path : String) → (webhook_url a namespace path == "") ≡ false
url-ne-empty a namespace path = elim (Bool-cases (webhook_url a namespace path == "")) [
  | inr e ↦ e
  | inl e ↦
      let nothing = (eq_iff (webhook_url a namespace path) "").0 e in
      absurd
        (append-ne-nil "https://" _ (λ q. cons≢nil q) (sym (url-split a namespace path) ∙ nothing))
]

-- The test for a server, past the scheme.
points_at_service :
    (a b namespace path : String)
    → target_points_at (webhook_url a namespace path) b
      ≡ has_prefix
          (append
            (webhook_server_service_name a)
            (append (single dot) (append namespace (append ".svc" path))))
          (append (webhook_server_service_name b) (single dot))
unfolding target_points_at
points_at_service a b namespace path =
    rw
      (
        url-ne-empty a namespace path,
        url-split,
        append_assoc "https://" (webhook_server_service_name b) ".",
      )
      (has_prefix-common "https://"
        (append (webhook_server_service_name a)
          (append (single dot) (append namespace (append ".svc" path))))
        (append (webhook_server_service_name b) "."))

-- The URL that the operator writes for a server, whose name has no dot, points at a server whose
-- name has no dot exactly if it is that server.
pub target_points_at_iff :
    (a b namespace path : String)
    → Lacks dot a
    → Lacks dot b
    → (target_points_at (webhook_url a namespace path) b ≡ true) ↔ (a ≡ b)
target_points_at_iff a b namespace path la lb = (
  λ h. service-injective a b (
      delimited dot (webhook_server_service_name a) (webhook_server_service_name b) _
        (service_Lacks a la) (service_Lacks b lb) (rw points_at_service at h)),
  λ e.
      rw (e, points_at_service, ← append_assoc (webhook_server_service_name b) (single dot))
        (has_prefix-append _ _),
)

target_points_at-eq :
    (a b namespace path : String)
    → Lacks dot a
    → Lacks dot b
    → target_points_at (webhook_url a namespace path) b ≡ (a == b)
target_points_at-eq a b namespace path la lb =
    ground (arith, target_points_at_iff a b namespace path la lb, eq_iff a b)

module _ (h : Hashing) where
  -- During a handover the old server, whose Service the target still calls, and the new one, which
  -- the config resolves to, serve the config, and no other server whose name has no dot does.
  pub served_by-handover :
      (cfg : Config) (servers : List Server) (old new server namespace path : String)
      → Lacks dot old
      → Lacks dot server
      → cfg.applied_webhook_url ≡ webhook_url old namespace path
      → resolve_assignment h cfg servers ≡ ok new
      → served_by h cfg servers server ≡ ((new == server) || (old == server))
  unfolding served_by is_assigned_to
  served_by-handover cfg servers old new server namespace path lo ls url resolved =
      rw (resolved, url, target_points_at-eq old server namespace path lo ls) (ground arith)
