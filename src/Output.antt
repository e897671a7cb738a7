-- ===== src/Output.antt =====
-- output.c: the demonstration CGI program, which sleeps and says for how long.
pub mod Bounds
use operating_systems_wet.Base.{
  ℕ, zero, suc, ◌==◌, Bool, if◌then◌else◌, List, [], ◌∷◌, ◌++◌, Option, none, some, length,
}
use operating_systems_wet.Base.Int.{ℤ, pos, negsuc}
use operating_systems_wet.Base.Bytes.{codes}
use operating_systems_wet.Base.Format.{print_nat}
use operating_systems_wet.Base.Time.{Timeval}
use operating_systems_wet.Request.Stats.{crlf}
use operating_systems_wet.Segel.{fails}

-- The numbers of type `double`, and what libc and the processor do with them.
pub record Doubles : Type 1 where
  pub Double : Type 0
  pub of_int : ℤ → Double
  pub million : Double
  pub five : Double
  pub plus : Double → Double → Double
  pub minus : Double → Double → Double
  pub divide : Double → Double → Double
  pub times : Double → Double → Double
  pub atof : List ℕ → Double
  pub print_2f : Double → List ℕ  -- `%.2f`

-- `strtok(buf, "&")`: NULL where there is nothing but `&`.
abbrev pub skip_ampersands : List ℕ → List ℕ
skip_ampersands [] = []
skip_ampersands (c ∷ s) = if c == b'&' then skip_ampersands s else c ∷ s

abbrev pub until_ampersand : List ℕ → List ℕ
until_ampersand [] = []
until_ampersand (c ∷ s) = if c == b'&' then [] else c ∷ until_ampersand s

abbrev pub token : List ℕ → Option (List ℕ)
token [] = none
token (c ∷ s) = some (until_ampersand (c ∷ s))

abbrev pub strtok : List ℕ → Option (List ℕ)
strtok buf = token (skip_ampersands buf)

module _ (doubles : Doubles) where
  -- `getargs`: `spinfor` afterwards. The argument is what `getenv("QUERY_STRING")` returns.
  abbrev pub spin_of : Option (List ℕ) → doubles.Double
  spin_of none = doubles.five
  spin_of (some p) = doubles.atof p

  unfoldable pub spinfor : Option (List ℕ) → doubles.Double
  spinfor none = doubles.five
  spinfor (some buf) = spin_of (strtok buf)

  -- `Time_GetSeconds`, on what `gettimeofday` gave; it aborts where that fails.
  abbrev pub seconds : ℤ → Timeval → Option doubles.Double
  seconds (pos zero) t = some (
      doubles.plus (doubles.of_int t.tv_sec)
        (doubles.divide (doubles.of_int (pos t.tv_usec)) doubles.million))
  seconds (pos (suc n)) t = none
  seconds (negsuc n) t = none

  -- The body; each `sprintf` appends to what is there.
  unfoldable pub content : doubles.Double → List ℕ
  content spun =
      (codes "<p>Welcome to the CGI program</p>" ++ crlf)
      ++ (codes "<p>My only purpose is to waste time on the server!</p>" ++ crlf)
      ++ (codes "<p>I spun for " ++ (doubles.print_2f spun ++ (codes " seconds</p>" ++ crlf)))

  abbrev pub response : List ℕ → List ℕ
  response body =
      (codes "Content-length: " ++ (print_nat (length body) ++ crlf))
      ++ (codes "Content-type: text/html" ++ (crlf ++ crlf))
      ++ body

  -- What the program does: it sleeps for so many microseconds and then prints.
  pub record Output : Type 0 where
    pub slept : doubles.Double
    pub text : List ℕ

  -- The clock before and after the sleep. `none` is a failed assertion.
  abbrev pub shown_between :
      Option (List ℕ) → Option doubles.Double → Option doubles.Double → Option Output
  shown_between query (some t1) (some t2) = some (record {
    slept = doubles.times (spinfor query) doubles.million;
    text = response (content (doubles.minus t2 t1));
  })
  shown_between query _ _ = none

  unfoldable pub output_main : Option (List ℕ) → ℤ → Timeval → ℤ → Timeval → Option Output
  output_main query rc1 before rc2 after =
      shown_between query (seconds rc1 before) (seconds rc2 after)
