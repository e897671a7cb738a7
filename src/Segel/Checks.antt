-- ===== src/Segel/Checks.antt =====
-- What the client and server helpers of segel.c promise.
use operating_systems_wet.Base.{◌≡◌, ◌↔◌, Bool, true, false, ◌||◌, if◌then◌else◌, [], some, arith}
use operating_systems_wet.Base.Int.{ℤ, pos, negsuc}
use operating_systems_wet.Base.Bytes.{codes}
use operating_systems_wet.Segel.{
  minus_one, returned, exited, dns, fails, open_clientfd, open_listenfd, open_clientfd_wrapper,
}

-- `Open_clientfd` over `open_clientfd` returns the socket exactly where `socket` and `connect`
-- succeed and the host is found, and exits with a DNS error exactly where the socket could be made
-- and the host is not found.
pub open_clientfd_lem :
    (clientfd connect_rc : ℤ) (host_found : Bool)
    → let r = open_clientfd clientfd host_found connect_rc in
      ((open_clientfd_wrapper r.result ≡ returned clientfd)
        ↔ ((fails clientfd ≡ false) × (host_found ≡ true) × (fails connect_rc ≡ false)))
      × ((open_clientfd_wrapper r.result ≡ exited dns (codes "Open_clientfd DNS error"))
          ↔ ((fails clientfd ≡ false) × (host_found ≡ false)))
unfolding open_clientfd
open_clientfd_lem (negsuc n) connect_rc host_found = ground arith
open_clientfd_lem (pos n) connect_rc false = ground arith
open_clientfd_lem (pos n) (pos m) true = ground arith
open_clientfd_lem (pos n) (negsuc m) true = ground arith

-- Once `socket` has succeeded, `open_listenfd` returns the socket where the other three calls
-- succeed, and -1 where one of them fails; in both cases the socket stays open, though after a
-- failure the caller never learns its number. It prints a line on the standard error exactly where it
-- does not return the socket.
pub open_listenfd_leaks :
    (listenfd setsockopt_rc bind_rc listen_rc : ℤ)
    → fails listenfd ≡ false
    → let r = open_listenfd listenfd setsockopt_rc bind_rc listen_rc in
      (r.left_open ≡ some listenfd)
      × (r.result ≡ (
          if fails setsockopt_rc || fails bind_rc || fails listen_rc then minus_one else listenfd))
      × ((r.on_stderr ≡ [])
          ↔ ((fails setsockopt_rc ≡ false) × (fails bind_rc ≡ false) × (fails listen_rc ≡ false)))
unfolding open_listenfd
open_listenfd_leaks listenfd setsockopt_rc bind_rc listen_rc h = ground arith
