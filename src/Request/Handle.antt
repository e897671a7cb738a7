-- ===== src/Request/Handle.antt =====
-- request.c: `requestHandle`.
pub mod Kinds
pub mod Counts
pub mod Logged
pub mod Faults
pub mod Served
pub mod Ends
pub mod Reaction
pub mod Reacts
pub mod Same
pub mod Grows
pub mod Cut
pub mod Tallied
use operating_systems_wet.Base.{
  ℕ, zero, suc, ◌+◌, ◌%◌, ◌^◌, Bool, true, false, not, ◌&&◌, ◌||◌, if◌then◌else◌, List, [], ◌∷◌,
  ◌++◌, Option, none, some, length,
}
use operating_systems_wet.Base.Int.{ℤ, pos, signed32}
use operating_systems_wet.Base.Bytes.{codes, c_string, same_letters, scan_word}
use operating_systems_wet.Base.Time.{Timeval}
use operating_systems_wet.Log.Buffer.{ServerLog}
use operating_systems_wet.Log.Whole.{add_to_log}
use operating_systems_wet.Rio.Read.{Rio, Event, rio_readinitb}
use operating_systems_wet.Rio.Line.{Line, line, end_of_file, read_error, rio_readlineb}
use operating_systems_wet.Request.Stats.{ThreadsStats, inc, append_stats}
use operating_systems_wet.Request.Uri.{Target, request_parse_uri}
use operating_systems_wet.Request.Headers.{
  maxline, Headers, skipped, read_failed, request_readhdrs, enough_lines,
}
use operating_systems_wet.Request.Session.{
  FileStat, Env, Session, Outcome, returns, exits, stuck, M, continue, ◌>>=◌, ◌>>◌, pure, get,
  unix_error, set_stats,
}
use operating_systems_wet.Request.Answer.{
  request_error, request_serve_static, request_serve_dynamic, request_serve_post,
}

-- What the buffers on the stack hold when the handler is entered, as C strings, and the byte before
-- `uri`.
pub record Stack : Type 0 where
  pub method : List ℕ
  pub uri : List ℕ
  pub cgiargs : List ℕ
  pub header : List ℕ
  pub below_uri : ℕ

-- `sscanf(buf, "%s %s %s", method, uri, version)`: what does not match keeps what it held.
abbrev pub scan_uri : Stack → List ℕ → List ℕ → List ℕ × List ℕ
scan_uri stack method rest = elim (scan_word rest) [
  | none ↦ (method, stack.uri)
  | some (uri, _) ↦ (method, uri)
]

abbrev pub scan_request : Stack → List ℕ → List ℕ × List ℕ
scan_request stack buf = elim (scan_word buf) [
  | none ↦ (stack.method, stack.uri)
  | some (method, rest) ↦ scan_uri stack method rest
]

abbrev pub count_total : ThreadsStats → ThreadsStats
count_total t = record t { total_req = inc t.total_req }

abbrev pub count_static : ThreadsStats → ThreadsStats
count_static t = record t { stat_req = inc t.stat_req }

abbrev pub count_dynamic : ThreadsStats → ThreadsStats
count_dynamic t = record t { dynm_req = inc t.dynm_req }

abbrev pub count_post : ThreadsStats → ThreadsStats
count_post t = record t { post_req = inc t.post_req }

module _ (env : Env) (arrival dispatch : Timeval) where
  -- `stats_buf`, printed before the request is served.
  abbrev pub stats_entry : ThreadsStats → List ℕ
  stats_entry stats = (append_stats [] stats arrival dispatch).0

  abbrev pub logged : Option (Option ServerLog) → M (Unit {0})
  logged none s = stuck
  logged (some none) s = returns tt s
  logged (some (some log)) s = returns tt (record s { log = log })

  -- `add_to_log(log, stats_buf, strlen(stats_buf))`.
  abbrev pub log_entry : List ℕ → M (Unit {0})
  log_entry entry s =
      logged (add_to_log env.malloc (some s.log) (some entry) (pos (length entry))) s

  -- A static file that may be read: counted, served and logged.
  unfoldable pub static_served : List ℕ → FileStat → M (Unit {0})
  static_served filename sbuf = do
    set_stats count_static
    s ← get
    let entry = stats_entry s.stats
    request_serve_static env arrival dispatch filename (signed32 (sbuf.st_size % 2 ^ 32))
    log_entry entry

  unfoldable pub handle_static : List ℕ → FileStat → M (Unit {0})
  handle_static filename sbuf s =
      if not sbuf.is_regular || not sbuf.may_read
      then request_error env arrival dispatch filename (codes "403") (codes "Forbidden")
          (codes "OS-HW3 Server could not read this file") s
      else static_served filename sbuf s

  -- A program that may be run: counted, run and logged.
  unfoldable pub dynamic_served : List ℕ → List ℕ → M (Unit {0})
  dynamic_served filename cgiargs = do
    set_stats count_dynamic
    s ← get
    let entry = stats_entry s.stats
    request_serve_dynamic env arrival dispatch filename cgiargs
    log_entry entry

  unfoldable pub handle_dynamic : List ℕ → List ℕ → FileStat → M (Unit {0})
  handle_dynamic filename cgiargs sbuf s =
      if not sbuf.is_regular || not sbuf.may_execute
      then request_error env arrival dispatch filename (codes "403") (codes "Forbidden")
          (codes "OS-HW3 Server could not run this CGI program") s
      else dynamic_served filename cgiargs s

  unfoldable pub handle_found : Target → Option FileStat → M (Unit {0})
  handle_found t none s =
      request_error env arrival dispatch t.filename (codes "404") (codes "Not found")
        (codes "OS-HW3 Server could not find this file") s
  handle_found t (some sbuf) s =
      if t.is_static
      then handle_static t.filename sbuf s
      else handle_dynamic t.filename t.cgiargs sbuf s

  unfoldable pub handle_get : Stack → List ℕ → Option Headers → M (Unit {0})
  handle_get stack uri none s = stuck
  handle_get stack uri (some read_failed) s = exits (codes "Rio_readlineb error") s
  handle_get stack uri (some (skipped rp)) s =
      let t = request_parse_uri stack.below_uri uri stack.cgiargs in
      handle_found t (env.stat t.filename) s

  unfoldable pub handle_post : M (Unit {0})
  handle_post = do set_stats count_post; request_serve_post env arrival dispatch

  unfoldable pub handle_method : Stack → List ℕ × List ℕ → Rio → M (Unit {0})
  handle_method stack (method, uri) rp s =
      if same_letters method (codes "GET")
      then handle_get stack uri (request_readhdrs (enough_lines rp) stack.header rp) s
      else if same_letters method (codes "POST")
      then handle_post s
      else request_error env arrival dispatch method (codes "501") (codes "Not Implemented")
          (codes "OS-HW3 Server does not implement this method") s

  unfoldable pub handle_line : Stack → Line × Rio → M (Unit {0})
  handle_line stack (end_of_file, rp) s = returns tt s
  handle_line stack (read_error, rp) s = exits (codes "Rio_readlineb error") s
  handle_line stack (line text n, rp) s =
      handle_method stack (scan_request stack (c_string text)) rp
        (record s { stats = count_total s.stats })

  unfoldable pub request_handle : Stack → List Event → M (Unit {0})
  request_handle stack fd = handle_line stack (rio_readlineb (rio_readinitb fd) maxline)
