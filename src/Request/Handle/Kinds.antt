-- ===== src/Request/Handle/Kinds.antt =====
-- What a request may be counted as, by its method and its name.
use operating_systems_wet.Base.{
  ℕ, ◌≡◌, refl, ◌&&◌, inl, inr, Bool, true, false, not, if◌then◌else◌, Bool-cases, List,
}
use operating_systems_wet.Base.Bytes.{codes, same_letters, strstr}
use operating_systems_wet.Request.Stats.{ThreadsStats}
use operating_systems_wet.Request.Uri.{request_parse_uri}
use operating_systems_wet.Request.Session.{Session}
use operating_systems_wet.Request.Handle.{count_static, count_dynamic, count_post}

-- Which counter besides the total a request is counted in.
pub data Kind : Type 0 where
  neither : Kind
  static : Kind
  dynamic : Kind
  post : Kind

abbrev pub counted : Kind → ThreadsStats → ThreadsStats
counted neither t = t
counted static t = count_static t
counted dynamic t = count_dynamic t
counted post t = count_post t

-- The counters that a request with a given method and name may be counted in.
abbrev pub is_get_kind : Bool → Kind → Bool
is_get_kind program neither = true
is_get_kind program static = not program
is_get_kind program dynamic = program
is_get_kind program post = false

-- Whether a name stands for a program: it has "cgi" in it, and no "..".
abbrev pub names_program : List ℕ → Bool
names_program uri = strstr uri (codes "cgi") && not (strstr uri (codes ".."))

pub is_static-names_program :
    (below : ℕ) (uri cgiargs : List ℕ)
    → not (request_parse_uri below uri cgiargs).is_static ≡ names_program uri
unfolding request_parse_uri
is_static-names_program below uri cgiargs = elim (Bool-cases (strstr uri (codes ".."))) [
  | inl dots ↦ elim (Bool-cases (strstr uri (codes "cgi"))) [
    | inl cgi ↦ rw (dots, cgi) refl
    | inr cgi ↦ rw (dots, cgi) refl
  ]
  | inr dots ↦ elim (Bool-cases (strstr uri (codes "cgi"))) [
    | inl cgi ↦ rw (dots, cgi) refl
    | inr cgi ↦ rw (dots, cgi) refl
  ]
]

abbrev pub is_post_kind : Kind → Bool
is_post_kind post = true
is_post_kind _ = false

abbrev pub is_other_kind : Kind → Bool
is_other_kind neither = true
is_other_kind _ = false

abbrev pub is_kind_of : List ℕ → List ℕ → Kind → Bool
is_kind_of method uri k =
    if same_letters method (codes "GET")
    then is_get_kind (names_program uri) k
    else if same_letters method (codes "POST")
    then is_post_kind k
    else is_other_kind k

abbrev pub Counts : (Kind → Bool) → Session → Session → Type 0
Counts ok s s' = (k : Kind) × (ok k ≡ true) × (s'.stats ≡ counted k s.stats)
