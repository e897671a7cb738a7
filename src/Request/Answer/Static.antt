-- ===== src/Request/Answer/Static.antt =====
-- The bytes that are sent of a static file.
use operating_systems_wet.Base.{
  ℕ, suc, ◌≡◌, ◌∙◌, true, false, List, ◌++◌, some, append_assoc, arith, take,
}
use operating_systems_wet.Base.Int.{pos}
use operating_systems_wet.Base.Bytes.{codes}
use operating_systems_wet.Base.Format.{print_int, print_nat}
use operating_systems_wet.Base.Time.{Timeval}
use operating_systems_wet.Request.Stats.{ThreadsStats, crlf, stats_lines, append_stats}
use operating_systems_wet.Request.Uri.{request_get_filetype}
use operating_systems_wet.Request.Session.{Env, Session}
use operating_systems_wet.Request.Answer.{
  request_serve_static, server_lines, is_negative, send_mapped,
}
use operating_systems_wet.Request.Answer.Response.{AlwaysWrites, answered}

module _ (env : Env) (arrival dispatch : Timeval) where
  -- Status, length and type, the statistics, an empty line and the file.
  abbrev pub static_response : ThreadsStats → List ℕ → ℕ → List ℕ → List ℕ
  static_response stats filename size body =
      ((server_lines env arrival dispatch
          ++ (codes "Content-Length: "
              ++ (print_nat size
                  ++ (crlf
                      ++ (codes "Content-Type: " ++ (request_get_filetype filename ++ crlf))))))
        ++ stats_lines stats arrival dispatch)
      ++ body

  pub serve_step :
      (filename : List ℕ) (k : ℕ) (body : List ℕ) (s : Session)
      → is_negative (env.open_fd filename) ≡ false
      → env.mmap filename (pos (suc k)) ≡ some body
      → request_serve_static env arrival dispatch filename (pos (suc k)) s
        ≡ send_mapped env arrival dispatch filename (pos (suc k)) body s
  unfolding request_serve_static
  serve_step filename k body s opens maps = ground arith

  -- Where opening, mapping, closing and unmapping go well, as many of the mapped bytes as the
  -- file has are sent behind the header.
  pub request_serve_static_lem :
      (filename : List ℕ) (k : ℕ) (body : List ℕ) (s : Session)
      → AlwaysWrites env
      → is_negative (env.open_fd filename) ≡ false
      → env.mmap filename (pos (suc k)) ≡ some body
      → env.close_ok ≡ true
      → env.munmap_ok ≡ true
      → request_serve_static env arrival dispatch filename (pos (suc k)) s
        ≡ answered s
            (s.sent ++ static_response s.stats filename (suc k) (take (suc k) body))
            s.printed
  unfolding append_stats print_int
  request_serve_static_lem filename k body s w opens maps closes unmaps =
      let header : List ℕ =
        (server_lines env arrival dispatch
          ++ (codes "Content-Length: "
              ++ (print_nat (suc k)
                  ++ (crlf
                      ++ (codes "Content-Type: " ++ (request_get_filetype filename ++ crlf))))))
        ++ stats_lines s.stats arrival dispatch in
      serve_step filename k body s opens maps
      ∙ rw (
        closes,
        w s.sent header,
        w (s.sent ++ header) (take (suc k) body),
        unmaps,
        append_assoc s.sent header (take (suc k) body),
      )
