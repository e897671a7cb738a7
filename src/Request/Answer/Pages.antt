-- ===== src/Request/Answer/Pages.antt =====
-- Each kind of answer, taken apart.
use operating_systems_wet.Base.{
  ℕ, ◌<◌, ◌^◌, ◌≡◌, refl, true, Bool-cases, inl, inr, List, [], ◌∷◌, append_assoc, length, arith,
}
use operating_systems_wet.Base.Bytes.{codes, strstr}
use operating_systems_wet.Base.Format.{print_nat, length-print_nat}
use operating_systems_wet.Base.Time.{Timeval}
use operating_systems_wet.Log.Buffer.{ServerLog}
use operating_systems_wet.Log.Buffer.Bounds.{content}
use operating_systems_wet.Rio.Line.Text.{in_line}
use operating_systems_wet.Request.Stats.{ThreadsStats}
use operating_systems_wet.Request.Stats.Length.{IsStats, IsTime}
use operating_systems_wet.Request.Uri.{request_get_filetype}
use operating_systems_wet.Request.Headers.Spec.{all_headers, header_text}
use operating_systems_wet.Request.Session.{Env}
use operating_systems_wet.Request.Answer.Response.{log_response}
use operating_systems_wet.Request.Answer.Static.{static_response}
use operating_systems_wet.Request.Answer.Dynamic.{dynamic_response}
use operating_systems_wet.Request.Answer.Lines.{
  named, named-is_header, stat_headers, stat_headers-all_headers, in_line-print_nat,
}

-- The first lines of an answer that is not an error.
abbrev pub ok_headers : List (List ℕ) → List (List ℕ)
ok_headers ws =
    named (codes "HTTP/1.0 200 OK") [] ∷ named (codes "Server: OS-HW3 Web Server") [] ∷ ws

abbrev pub length_header : ℕ → List ℕ
length_header n = named (codes "Content-Length: ") (print_nat n)

abbrev pub type_header : List ℕ → List ℕ
type_header filetype = named (codes "Content-Type: ") filetype

pub length_header-is_header :
    (n : ℕ) (ws : List (List ℕ))
    → n < 2 ^ 31
    → all_headers ws ≡ true
    → all_headers (length_header n ∷ ws) ≡ true
length_header-is_header n ws small h =
    rw
      (named-is_header b'C' (codes "ontent-Length: ") (print_nat n) refl refl (in_line-print_nat n)
        (omega (arith, length-print_nat 9 n (omega arith))))
      h

filetype_is_short :
    (filename : List ℕ)
    → (in_line (request_get_filetype filename) ≡ true)
      × (length (request_get_filetype filename) < 20)
unfolding request_get_filetype
filetype_is_short filename = elim (Bool-cases (strstr filename (codes ".html"))) [
  | inl html ↦ rw html (refl, omega arith)
  | inr h ↦ elim (Bool-cases (strstr filename (codes ".gif"))) [
    | inl gif ↦ rw (h, gif) (refl, omega arith)
    | inr g ↦ elim (Bool-cases (strstr filename (codes ".jpg"))) [
      | inl jpg ↦ rw (h, g, jpg) (refl, omega arith)
      | inr j ↦ rw (h, g, j) (refl, omega arith)
    ]
  ]
]

type_header-is_header :
    (filetype : List ℕ) (ws : List (List ℕ))
    → in_line filetype ≡ true
    → length filetype < 20
    → all_headers ws ≡ true
    → all_headers (type_header filetype ∷ ws) ≡ true
type_header-is_header filetype ws lined short h =
    rw (named-is_header b'C' (codes "ontent-Type: ") filetype refl refl lined (omega arith)) h

module _ (env : Env) (arrival dispatch : Timeval) where
  -- The header of a file, of the log, and of what a program writes.
  abbrev pub static_headers : ThreadsStats → List ℕ → ℕ → List (List ℕ)
  static_headers stats filename size = ok_headers (
      length_header size
      ∷ type_header (request_get_filetype filename)
      ∷ stat_headers stats arrival dispatch)

  abbrev pub log_headers : ThreadsStats → ServerLog → List (List ℕ)
  log_headers stats log = ok_headers (
      length_header log.size
      ∷ type_header (codes "text/plain")
      ∷ stat_headers stats arrival dispatch)

  abbrev pub dynamic_headers : ThreadsStats → List (List ℕ)
  dynamic_headers stats = ok_headers (stat_headers stats arrival dispatch)

  pub static_response-header_text :
      (stats : ThreadsStats) (filename : List ℕ) (size : ℕ) (body : List ℕ)
      → static_response env arrival dispatch stats filename size body
        ≡ header_text (static_headers stats filename size) body
  static_response-header_text stats filename size body = simp append_assoc

  pub log_response-header_text :
      (stats : ThreadsStats) (log : ServerLog)
      → log_response env arrival dispatch stats log
        ≡ header_text (log_headers stats log) (content log)
  log_response-header_text stats log = simp append_assoc

  pub dynamic_response-header_text :
      (stats : ThreadsStats) (output : List ℕ)
      → dynamic_response env arrival dispatch stats output
        ≡ header_text (dynamic_headers stats) output
  dynamic_response-header_text stats output = simp append_assoc

  pub static_headers-all_headers :
      (stats : ThreadsStats) (filename : List ℕ) (size : ℕ)
      → size < 2 ^ 31
      → IsStats stats
      → IsTime arrival
      → IsTime dispatch
      → all_headers (static_headers stats filename size) ≡ true
  static_headers-all_headers stats filename size small st a d =
      let (lined, short) = filetype_is_short filename in
      length_header-is_header size
        (type_header (request_get_filetype filename) ∷ stat_headers stats arrival dispatch) small
        (type_header-is_header (request_get_filetype filename) (stat_headers stats arrival dispatch)
          lined short (stat_headers-all_headers stats arrival dispatch st a d))

  pub log_headers-all_headers :
      (stats : ThreadsStats) (log : ServerLog)
      → log.size < 2 ^ 31
      → IsStats stats
      → IsTime arrival
      → IsTime dispatch
      → all_headers (log_headers stats log) ≡ true
  log_headers-all_headers stats log small st a d =
      length_header-is_header log.size
        (type_header (codes "text/plain") ∷ stat_headers stats arrival dispatch) small
        (type_header-is_header (codes "text/plain") (stat_headers stats arrival dispatch) refl
          (omega arith) (stat_headers-all_headers stats arrival dispatch st a d))

  pub dynamic_headers-all_headers :
      (stats : ThreadsStats)
      → IsStats stats
      → IsTime arrival
      → IsTime dispatch
      → all_headers (dynamic_headers stats) ≡ true
  dynamic_headers-all_headers stats st a d = stat_headers-all_headers stats arrival dispatch st a d
