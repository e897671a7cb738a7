-- ===== src/Client/Start/Page.antt =====
-- A page on its way from the server's file to the client's terminal.
use operating_systems_wet.Base.{
  ℕ, suc, ◌≡◌, refl, sym, ap, ◌∙◌, append-nil, length, take, true, false, List, [], ◌∷◌, ◌++◌, some,
}
use operating_systems_wet.Request.Answer.Response.{take-whole}
use operating_systems_wet.Base.Int.{pos}
use operating_systems_wet.Base.Bytes.{codes, same_letters}
use operating_systems_wet.Base.Time.{Timeval}
use operating_systems_wet.Log.Buffer.{ServerLog}
use operating_systems_wet.Log.Buffer.Bounds.{content}
use operating_systems_wet.Rio.Read.{Rio}
use operating_systems_wet.Segel.{open_clientfd}
use operating_systems_wet.Request.Stats.{ThreadsStats}
use operating_systems_wet.Request.Uri.{Target}
use operating_systems_wet.Request.Headers.Spec.{header_text}
use operating_systems_wet.Request.Session.{FileStat, Env}
use operating_systems_wet.Request.Answer.Pages.{
  static_headers, static_response-header_text, log_headers, log_response-header_text,
  dynamic_headers, dynamic_response-header_text,
}
use operating_systems_wet.Request.Handle.{count_static, count_dynamic, count_post}
use operating_systems_wet.Request.Handle.Reaction.{reaction}
use operating_systems_wet.Client.{request_text, printed_all, client_send, client_print}
use operating_systems_wet.Client.Start.{ClientCalls, ends, connected_line, client_main}

-- The calls of the client go well, and its descriptor is `clientfd`.
pub record Connects (calls : ClientCalls) (clientfd name_rc closed_rc : ℕ) : Type 0 where
  pub connects :
      (open_clientfd calls.socket_rc calls.host_found calls.connect_rc).result ≡ pos clientfd
  pub names : calls.hostname_rc ≡ pos name_rc
  pub writes : calls.write_ok ≡ true
  pub closes : calls.close_rc ≡ pos closed_rc

-- What the client has printed before the answer comes.
abbrev pub before_answer : ℕ → List ℕ → List ℕ
before_answer clientfd text =
    connected_line (pos clientfd) ++ (codes "Request:" ++ (b'\n' ∷ (text ++ (b'\n' ∷ []))))

pub client_main_prints :
    (calls : ClientCalls) (clientfd name_rc closed_rc : ℕ)
    (name host port filename method shown : List ℕ) (rp : Rio)
    → Connects calls clientfd name_rc closed_rc
    → client_print calls.fd ≡ some (printed_all shown rp)
    → client_main calls (name ∷ host ∷ port ∷ filename ∷ method ∷ [])
      ≡ some (
          ends 0 []
            (before_answer clientfd (request_text method filename calls.hostname) ++ shown)
            (request_text method filename calls.hostname))
unfolding client_main client_send
client_main_prints calls clientfd name_rc closed_rc name host port filename method shown rp c
      shows =
    rw (c.connects, c.names, c.writes, shows, c.closes) refl

take_all : (xs : List ℕ) (n : ℕ) → n ≡ length xs → take n xs ≡ xs
take_all xs n e = ap (take n) (sym (append-nil xs)) ∙ take-whole xs [] n e

-- The server finds a file that it may read, with the bytes `body`, as many as it says, which are mapped.
pub record FindsPage (env : Env) (t : Target) (sbuf : FileStat) (k : ℕ) (body : List ℕ)
    : Type 0 where
  pub is_static : t.is_static ≡ true
  pub found : env.stat t.filename ≡ some sbuf
  pub regular : sbuf.is_regular ≡ true
  pub readable : sbuf.may_read ≡ true
  pub size : sbuf.st_size ≡ suc k
  pub mapped : env.mmap t.filename (pos (suc k)) ≡ some body
  pub exact : suc k ≡ length body

-- The server finds a program that it may run.
pub record FindsProgram (env : Env) (t : Target) (sbuf : FileStat) : Type 0 where
  pub is_dynamic : t.is_static ≡ false
  pub found : env.stat t.filename ≡ some sbuf
  pub regular : sbuf.is_regular ≡ true
  pub runs : sbuf.may_execute ≡ true

module _ (env : Env) (arrival dispatch : Timeval) where
  pub page_answer :
      (stats : ThreadsStats) (log : ServerLog) (method : List ℕ) (t : Target) (sbuf : FileStat)
      (k : ℕ) (body : List ℕ)
      → same_letters method (codes "GET") ≡ true
      → FindsPage env t sbuf k body
      → (reaction env arrival dispatch stats log method t).answer
        ≡ header_text
            (static_headers env arrival dispatch (count_static stats) t.filename (suc k))
            body
  page_answer stats log method t sbuf k body get p =
      rw (get, p.found, p.is_static, p.regular, p.readable, p.size, p.mapped)
        (static_response-header_text env arrival dispatch (count_static stats) t.filename (suc k)
            (take (suc k) body)
          ∙ ap
              (header_text
                (static_headers env arrival dispatch (count_static stats) t.filename (suc k)))
              (take_all body (suc k) p.exact))

  pub output_answer :
      (stats : ThreadsStats) (log : ServerLog) (method : List ℕ) (t : Target) (sbuf : FileStat)
      → same_letters method (codes "GET") ≡ true
      → FindsProgram env t sbuf
      → (reaction env arrival dispatch stats log method t).answer
        ≡ header_text
            (dynamic_headers env arrival dispatch (count_dynamic stats))
            (env.run_cgi t.filename t.cgiargs)
  output_answer stats log method t sbuf get p =
      rw (get, p.found, p.is_dynamic, p.regular, p.runs)
        (dynamic_response-header_text env arrival dispatch (count_dynamic stats)
          (env.run_cgi t.filename t.cgiargs))

  pub log_answer :
      (stats : ThreadsStats) (log : ServerLog) (method : List ℕ) (t : Target)
      → same_letters method (codes "GET") ≡ false
      → same_letters method (codes "POST") ≡ true
      → (reaction env arrival dispatch stats log method t).answer
        ≡ header_text (log_headers env arrival dispatch (count_post stats) log) (content log)
  log_answer stats log method t other post =
      rw (other, post) (log_response-header_text env arrival dispatch (count_post stats) log)
