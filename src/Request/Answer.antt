-- ===== src/Request/Answer.antt =====
-- request.c: `requestError`, `requestServeStatic`, `requestServeDynamic` and `requestServePost`.
pub mod Kept
pub mod Response
pub mod Static
pub mod Dynamic
pub mod Lines
pub mod Pages
pub mod Ends
use operating_systems_wet.Base.{
  ℕ, zero, suc, Bool, true, false, ◌||◌, if◌then◌else◌, List, [], ◌∷◌, ◌++◌, Option, none, some,
  take, length,
}
use operating_systems_wet.Base.Int.{ℤ, pos, negsuc, pos_part}
use operating_systems_wet.Base.Bytes.{codes}
use operating_systems_wet.Base.Format.{print_int, print_nat}
use operating_systems_wet.Base.Time.{Timeval}
use operating_systems_wet.Log.Buffer.{ServerLog}
use operating_systems_wet.Log.Whole.{get_log, add_to_log}
use operating_systems_wet.Request.Stats.{ThreadsStats, inc, dec, crlf, append_stats}
use operating_systems_wet.Request.Uri.{request_get_filetype}
use operating_systems_wet.Request.Session.{
  FileStat, Env, Session, Outcome, returns, exits, stuck, M, ◌>>=◌, ◌>>◌, pure, get, unix_error,
  check, set_stats, printf, wait_pid, rio_writen, write_bytes,
}

abbrev pub is_negative : ℤ → Bool
is_negative (pos n) = false
is_negative (negsuc n) = true

abbrev pub is_zero : ℤ → Bool
is_zero (pos zero) = true
is_zero (pos (suc n)) = false
is_zero (negsuc n) = false

unfoldable pub error_body : List ℕ → List ℕ → List ℕ → List ℕ → List ℕ
error_body cause errnum shortmsg longmsg =
    codes "<html><title>OS-HW3 Error</title>"
    ++ (codes "<body bgcolor=fffff>"
        ++ (crlf
            ++ (errnum
                ++ (codes ": "
                    ++ (shortmsg
                        ++ (crlf
                            ++ (codes "<p>"
                                ++ (longmsg
                                    ++ (codes ": "
                                        ++ (cause
                                            ++ (crlf
                                                ++ (codes "<hr>OS-HW3 Web Server"
                                                    ++ crlf))))))))))))

module _ (env : Env) (arrival dispatch : Timeval) where
  -- A header line, or several, with the statistics behind it.
  abbrev pub with_stats : List ℕ → ThreadsStats → List ℕ
  with_stats buf stats = (append_stats buf stats arrival dispatch).0

  abbrev pub status_line : List ℕ → List ℕ → List ℕ
  status_line errnum shortmsg = codes "HTTP/1.0 " ++ (errnum ++ (codes " " ++ (shortmsg ++ crlf)))

  abbrev pub server_lines : List ℕ
  server_lines = codes "HTTP/1.0 200 OK" ++ (crlf ++ (codes "Server: OS-HW3 Web Server" ++ crlf))

  -- Each text is written to the client and printed.
  abbrev pub write_and_print : List ℕ → M (Unit {0})
  write_and_print text = do rio_writen env text; printf text

  unfoldable pub request_error : List ℕ → List ℕ → List ℕ → List ℕ → M (Unit {0})
  request_error cause errnum shortmsg longmsg = do
    let body = error_body cause errnum shortmsg longmsg
    write_and_print (status_line errnum shortmsg)
    write_and_print (codes "Content-Type: text/html" ++ crlf)
    s ← get
    write_and_print
        (with_stats (codes "Content-Length: " ++ (print_nat (length body) ++ crlf)) s.stats)
    write_and_print body

  -- segel.c: `Open` and `Mmap`, which exit on an error, and `Close` and `Munmap`.
  abbrev pub open_wrapper : List ℕ → M ℤ
  open_wrapper filename s =
      if is_negative (env.open_fd filename)
      then exits (codes "Open error") s
      else returns (env.open_fd filename) s

  abbrev pub mmap_wrapper : List ℕ → ℤ → M (Option (List ℕ))
  mmap_wrapper filename filesize s = elim (env.mmap filename filesize) [
    | none ↦ exits (codes "mmap error") s
    | some srcp ↦ returns (some srcp) s
  ]

  abbrev pub close_wrapper : M (Unit {0})
  close_wrapper = check env.close_ok (codes "Close error")

  abbrev pub forbidden : List ℕ → List ℕ → M (Unit {0})
  forbidden filename longmsg = request_error filename (codes "403") (codes "Forbidden") longmsg

  abbrev pub uncount_static : M (Unit {0})
  uncount_static = set_stats (λ t. record t { stat_req = dec t.stat_req })

  abbrev pub send_mapped : List ℕ → ℤ → List ℕ → M (Unit {0})
  send_mapped filename filesize srcp = do
    close_wrapper
    s ← get
    rio_writen env (
        with_stats
          (server_lines
            ++ (codes "Content-Length: "
                ++ (print_int filesize
                    ++ (crlf
                        ++ (codes "Content-Type: " ++ (request_get_filetype filename ++ crlf))))))
          s.stats)
    write_bytes env srcp filesize
    check env.munmap_ok (codes "munmap error")

  abbrev pub serve_mapped : List ℕ → ℤ → Option (List ℕ) → M (Unit {0})
  serve_mapped filename filesize none = do
    uncount_static
    close_wrapper
    forbidden filename (codes "OS-HW3 Server could not read this file")
  serve_mapped filename filesize (some srcp) = send_mapped filename filesize srcp

  -- The tests on `srcfd` and `srcp` are there although the wrappers never return an error.
  unfoldable pub request_serve_static : List ℕ → ℤ → M (Unit {0})
  request_serve_static filename filesize = do
    srcfd ← open_wrapper filename
    if is_negative srcfd
        then (do
          uncount_static
          forbidden filename (codes "OS-HW3 Server could not read this file"))
        else if is_zero filesize
        then (do
          uncount_static
          close_wrapper
          forbidden filename (codes "OS-HW3 Server cannot map empty file"))
        else (do srcp ← mmap_wrapper filename filesize; serve_mapped filename filesize srcp)

  -- The child writes to the client by itself; if `Execve` fails there, only the child exits.
  abbrev pub run_child : List ℕ → List ℕ → M (Unit {0})
  run_child filename cgiargs s =
      returns tt (record s { sent = s.sent ++ env.run_cgi filename cgiargs })

  unfoldable pub request_serve_dynamic : List ℕ → List ℕ → M (Unit {0})
  request_serve_dynamic filename cgiargs = do
    s ← get
    rio_writen env (with_stats server_lines s.stats)
    check env.fork_ok (codes "Fork error")
    run_child filename cgiargs
    wait_pid env

  abbrev pub got_log : Option (Option ServerLog × Option (List ℕ) × ℤ) → M (List ℕ × ℤ)
  got_log none s = stuck
  got_log (some (none, dst, n)) s = stuck
  got_log (some (some log, none, n)) s = returns ([], n) (record s { log = log })
  got_log (some (some log, some dst, n)) s = returns (dst, n) (record s { log = log })

  unfoldable pub request_serve_post : M (Unit {0})
  request_serve_post = do
    s ← get
    (body, body_len) ← got_log (get_log (some s.log) true)
    rio_writen env (
        with_stats
          (server_lines
            ++ (codes "Content-Length: "
                ++ (print_int body_len ++ (crlf ++ (codes "Content-Type: text/plain" ++ crlf)))))
          s.stats)
    write_bytes env body body_len
