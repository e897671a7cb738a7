-- ===== src/Rio/Wrapped.antt =====
-- segel.c: `Rio_readn`, `Rio_readinitb`, `Rio_readnb` and `Rio_readlineb`, which exit on an error.
use operating_systems_wet.Base.{ℕ, List, Option, none, some}
use operating_systems_wet.Base.Bytes.{codes}
use operating_systems_wet.Segel.{Run, returned, unix_error}
use operating_systems_wet.Rio.Read.{Rio, Event, rio_readinitb}
use operating_systems_wet.Rio.Line.{Line, line, end_of_file, read_error, rio_readlineb}
use operating_systems_wet.Rio.Fill.{Filled, filled, fill_error, rio_readn, rio_readnb}

-- What was stored, where the call returns.
abbrev pub filled_or_exit : {S : Type 0} → List ℕ → Option (Filled × S) → Option (Run (List ℕ) × S)
filled_or_exit message none = none
filled_or_exit message (some (filled text, s)) = some (returned text, s)
filled_or_exit message (some (fill_error, s)) = some (unix_error message, s)

abbrev pub rio_readn_wrapper : List Event → ℕ → Option (Run (List ℕ) × List Event)
rio_readn_wrapper fd n = filled_or_exit (codes "Rio_readn error") (rio_readn fd n)

abbrev pub rio_readinitb_wrapper : List Event → Rio
rio_readinitb_wrapper fd = rio_readinitb fd

abbrev pub rio_readnb_wrapper : Rio → ℕ → Option (Run (List ℕ) × Rio)
rio_readnb_wrapper rp n = filled_or_exit (codes "Rio_readnb error") (rio_readnb rp n)

-- A `line` that is read, or the end of the file.
abbrev pub line_or_exit : Line × Rio → Run Line × Rio
line_or_exit (line text n, rp) = (returned (line text n), rp)
line_or_exit (end_of_file, rp) = (returned end_of_file, rp)
line_or_exit (read_error, rp) = (unix_error (codes "Rio_readlineb error"), rp)

abbrev pub rio_readlineb_wrapper : Rio → ℕ → Run Line × Rio
rio_readlineb_wrapper rp maxlen = line_or_exit (rio_readlineb rp maxlen)
