-- ===== src/Request/Handle/Reaction.antt =====
-- What the server promises for a request: the answer, the counters afterwards and the text that is
-- logged, as functions of the request and the files, without buffers, locks, or a log that grows.
use operating_systems_wet.Base.{
  ℕ, zero, suc, ◌&&◌, if◌then◌else◌, List, [], Option, none, some, take,
}
use operating_systems_wet.Base.Int.{pos}
use operating_systems_wet.Base.Bytes.{codes, same_letters}
use operating_systems_wet.Base.Time.{Timeval}
use operating_systems_wet.Log.Buffer.{ServerLog}
use operating_systems_wet.Request.Stats.{ThreadsStats}
use operating_systems_wet.Request.Uri.{Target}
use operating_systems_wet.Request.Session.{FileStat, Env}
use operating_systems_wet.Request.Answer.Response.{error_response, log_response}
use operating_systems_wet.Request.Answer.Static.{static_response}
use operating_systems_wet.Request.Answer.Dynamic.{dynamic_response}
use operating_systems_wet.Request.Handle.{count_static, count_dynamic, count_post, stats_entry}

pub record Reaction : Type 0 where
  pub answer : List ℕ
  pub counters : ThreadsStats
  pub entry : List ℕ

module _ (env : Env) (arrival dispatch : Timeval) where
  -- An error leaves no trace but its answer.
  abbrev pub refusal : ThreadsStats → List ℕ → List ℕ → List ℕ → List ℕ → Reaction
  refusal stats cause errnum shortmsg longmsg = record {
    answer = error_response env arrival dispatch stats cause errnum shortmsg longmsg;
    counters = stats;
    entry = [];
  }

  abbrev pub mapped : Option (List ℕ) → List ℕ
  mapped none = []
  mapped (some body) = body

  -- A readable file: an empty one is refused, and logged nevertheless.
  abbrev pub on_file : ThreadsStats → List ℕ → ℕ → Reaction
  on_file stats filename zero = record {
    answer =
        error_response env arrival dispatch stats filename (codes "403") (codes "Forbidden")
          (codes "OS-HW3 Server cannot map empty file");
    counters = stats;
    entry = stats_entry env arrival dispatch (count_static stats);
  }
  on_file stats filename (suc k) = record {
    answer =
        static_response env arrival dispatch (count_static stats) filename (suc k)
          (take (suc k) (mapped (env.mmap filename (pos (suc k)))));
    counters = count_static stats;
    entry = stats_entry env arrival dispatch (count_static stats);
  }

  abbrev pub on_program : ThreadsStats → List ℕ → List ℕ → Reaction
  on_program stats filename cgiargs = record {
    answer =
        dynamic_response env arrival dispatch (count_dynamic stats) (env.run_cgi filename cgiargs);
    counters = count_dynamic stats;
    entry = stats_entry env arrival dispatch (count_dynamic stats);
  }

  abbrev pub on_get : ThreadsStats → Target → Option FileStat → Reaction
  on_get stats t none =
      refusal stats t.filename (codes "404") (codes "Not found")
        (codes "OS-HW3 Server could not find this file")
  on_get stats t (some sbuf) =
      if t.is_static
      then (if sbuf.is_regular && sbuf.may_read
          then on_file stats t.filename sbuf.st_size
          else refusal stats t.filename (codes "403") (codes "Forbidden")
              (codes "OS-HW3 Server could not read this file"))
      else (if sbuf.is_regular && sbuf.may_execute
          then on_program stats t.filename t.cgiargs
          else refusal stats t.filename (codes "403") (codes "Forbidden")
              (codes "OS-HW3 Server could not run this CGI program"))

  -- A POST gets the log as it is.
  abbrev pub on_post : ThreadsStats → ServerLog → Reaction
  on_post stats log = record {
    answer = log_response env arrival dispatch (count_post stats) log;
    counters = count_post stats;
    entry = [];
  }

  abbrev pub on_other : ThreadsStats → List ℕ → Reaction
  on_other stats method =
      refusal stats method (codes "501") (codes "Not Implemented")
        (codes "OS-HW3 Server does not implement this method")

  -- The reaction to a request with a method, for the file that its name stands for.
  abbrev pub reaction : ThreadsStats → ServerLog → List ℕ → Target → Reaction
  reaction stats log method t =
      if same_letters method (codes "GET")
      then on_get stats t (env.stat t.filename)
      else if same_letters method (codes "POST")
      then on_post stats log
      else on_other stats method
