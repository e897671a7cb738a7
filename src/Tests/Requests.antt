-- ===== src/Tests/Requests.antt =====
-- Requests to a server that has two public files.
use operating_systems_wet.Base.{
  ℕ, ◌≤◌, ◌≡◌, ◌≢◌, ◌≢◌, refl, true, false, List, [], ◌∷◌, ◌++◌, some, none, arith, length,
  replicate, length-replicate,
}
use operating_systems_wet.Base.Int.{pos}
use operating_systems_wet.Base.Bytes.{codes}
use operating_systems_wet.Base.Time.{Timeval}
use operating_systems_wet.Log.Buffer.Bounds.{content, IsValid, AllocatesExactly}
use operating_systems_wet.Rio.Read.{Event, chunk, rio_readinitb, Rio}
use operating_systems_wet.Rio.Line.{rio_readlineb}
use operating_systems_wet.Rio.Line.Progress.{exhausted}
use operating_systems_wet.Request.Stats.{ThreadsStats, crlf}
use operating_systems_wet.Request.Stats.Length.{IsTime, IsStats}
use operating_systems_wet.Request.Uri.{request_parse_uri}
use operating_systems_wet.Request.Uri.Safety.{
  StaysPublic, request_parse_uri-StaysPublic, filename_overflows,
}
use operating_systems_wet.Request.Headers.{request_readhdrs, request_readhdrs_stuck, maxline}
use operating_systems_wet.Request.Session.{FileStat, Env, Session, returns, completes}
use operating_systems_wet.Request.Answer.Kept.{Ensures}
use operating_systems_wet.Request.Answer.Response.{error_response}
use operating_systems_wet.Request.Handle.{
  Stack, count_static, stats_entry, static_served, request_handle,
}
use operating_systems_wet.Request.Handle.Grows.{Grown, request_handle-Grown}
use operating_systems_wet.Request.Handle.Tallied.{TalliedAfter, request_handle-Tallied}
use operating_systems_wet.Request.Handle.Logged.{CanLog}
use operating_systems_wet.Request.Handle.Faults.{empty_file_logged}
use operating_systems_wet.Request.Answer.Ends.{Ends}
use operating_systems_wet.Request.Handle.Ends.{CanHandle}
use operating_systems_wet.Log.Whole.{IsQuiet}
use operating_systems_wet.Tests.Log.{
  zeros, zeros-AllocatesExactly, one_byte, one_byte-IsValid, one_byte-IsQuiet,
}

abbrev pub noon : Timeval
noon = record { tv_sec = pos 43200; tv_usec = 5 }

abbrev pub soon : Timeval
soon = record { tv_sec = pos 0; tv_usec = 120 }

pub noon-IsTime : IsTime noon
noon-IsTime = record { sec_max = omega arith; sec_min = omega arith; usec = omega arith }

soon-IsTime : IsTime soon
soon-IsTime = record { sec_max = omega arith; sec_min = omega arith; usec = omega arith }

abbrev pub readable : FileStat
readable = record { is_regular = true; may_read = true; may_execute = false; st_size = 2 }

abbrev empty_file : FileStat
empty_file = record readable { st_size = 0 }

abbrev pub env : Env
env = record {
  stat = λ _. some readable;
  open_fd = λ _. pos 5;
  mmap = λ _ _. some (104 ∷ 105 ∷ []);
  munmap_ok = true;
  close_ok = true;
  fork_ok = true;
  wait_result = completes;
  run_cgi = λ _ _. 111 ∷ [];
  write_result = λ _ _. completes;
  malloc = zeros;
}

abbrev fresh : ThreadsStats
fresh = record { id = 1; stat_req = 0; dynm_req = 0; post_req = 0; total_req = 1 }

fresh-IsStats : IsStats fresh
fresh-IsStats = record {
  id = omega arith;
  stat_req = omega arith;
  dynm_req = omega arith;
  post_req = omega arith;
  total_req = omega arith;
}

abbrev pub session : Session
session = record { sent = []; printed = []; stats = fresh; log = one_byte }

can_log : CanLog env one_byte
can_log = record {
  exact = zeros-AllocatesExactly;
  valid = one_byte-IsValid;
  quiet = one_byte-IsQuiet;
  room = omega arith;
}

abbrev pub stack : Stack
stack = record { method = []; uri = []; cgiargs = []; header = []; below_uri = 0 }

abbrev home : List ℕ
home = codes "home.html"

abbrev up : List ℕ
up = codes "../secret"

request_parse_uri-StaysPublic_example : StaysPublic (request_parse_uri 0 up []).filename
request_parse_uri-StaysPublic_example = request_parse_uri-StaysPublic 0 up []

abbrev long : List ℕ
long = replicate 8183 97

filename_overflows_example : 8192 ≤ length (request_parse_uri 0 long []).filename
filename_overflows_example =
    filename_overflows 0 long [] refl refl (omega (arith, length-replicate {A = ℕ} 8183 97))

request_readhdrs_stuck_example : request_readhdrs 3 home exhausted ≡ none
request_readhdrs_stuck_example = request_readhdrs_stuck 3 home refl

abbrev pub two_lines : Rio
two_lines = rio_readinitb (chunk (97 ∷ b'\n' ∷ 13 ∷ b'\n' ∷ []) ∷ [])

abbrev get_home : List Event
get_home = chunk (codes "GET home.html HTTP/1.0" ++ (crlf ++ crlf)) ∷ []

empty_file_logged_example :
    (s' : Session) × (static_served env noon soon home empty_file session ≡ returns tt s')
    × (s'.stats ≡ fresh)
    × (s'.sent
        ≡ []
          ++ error_response env noon soon fresh home
              (codes "403")
              (codes "Forbidden")
              (codes "OS-HW3 Server cannot map empty file"))
    × (content s'.log ≡ content one_byte ++ stats_entry env noon soon (count_static fresh))
    × IsValid s'.log
    × IsQuiet s'.log
empty_file_logged_example =
    empty_file_logged env noon soon home empty_file session refl refl refl (λ _ _. refl)
      fresh-IsStats noon-IsTime soon-IsTime can_log

-- Whatever else the operating system does, if its memory is of the right size.
pub session_in-CanHandle : (e : Env) → AllocatesExactly e.malloc → CanHandle e noon soon session
session_in-CanHandle e exact = record {
  can_log = record {
    exact = exact;
    valid = one_byte-IsValid;
    quiet = one_byte-IsQuiet;
    room = omega arith;
  };
  small = omega arith;
  counters = fresh-IsStats;
  arrival_time = noon-IsTime;
  dispatch_time = soon-IsTime;
}

pub session-CanHandle : CanHandle env noon soon session
session-CanHandle = session_in-CanHandle env zeros-AllocatesExactly

abbrev get_rest : Rio
get_rest = record { fd = []; unread = crlf }

request_handle-Grown_example :
    Ensures (Grown env noon soon session) (request_handle env noon soon stack get_home session)
request_handle-Grown_example =
    request_handle-Grown env noon soon stack get_home session session-CanHandle

request_handle-Tallied_example :
    Ensures
      (TalliedAfter stack (rio_readlineb (rio_readinitb get_home) maxline).0 session)
      (request_handle env noon soon stack get_home session)
request_handle-Tallied_example =
    request_handle-Tallied env noon soon stack get_home session session-CanHandle.counters
