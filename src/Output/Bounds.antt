-- ===== src/Output/Bounds.antt =====
-- The program fits its buffer and says how long its body is.
use operating_systems_wet.Base.{
  ℕ, ◌≤◌, ◌==◌, Bool, true, not, ◌&&◌, List, [], ◌∷◌, ◌++◌, Option, none, some, length,
}
use operating_systems_wet.Base.Int.{pos}
use operating_systems_wet.Base.Bytes.{codes}
use operating_systems_wet.Base.Time.{Timeval}
use operating_systems_wet.Output.{Doubles}
use operating_systems_wet.Base.Format.{print_nat}

abbrev pub no_ampersand : List ℕ → Bool
no_ampersand [] = true
no_ampersand (c ∷ s) = not (c == b'&') && no_ampersand s

-- QUERY_STRING: not there, one text without `&`, or such a text with `&` and anything behind it.
pub data Query : Type 0 where
  absent : Query
  one_text : (c : ℕ) (text : List ℕ) → Query
  first_text : (c : ℕ) (text rest : List ℕ) → Query

abbrev pub variable_of : Query → Option (List ℕ)
variable_of absent = none
variable_of (one_text c text) = some (c ∷ text)
variable_of (first_text c text rest) = some (c ∷ (text ++ (b'&' ∷ rest)))

abbrev pub is_query : Query → Bool
is_query absent = true
is_query (one_text c text) = no_ampersand (c ∷ text)
is_query (first_text c text rest) = no_ampersand (c ∷ text)

module _ (doubles : Doubles) where
  -- What `%.2f` may print of a double: a sign, 309 digits, a point and two digits.
  abbrev pub PrintsShort : Type 0
  PrintsShort = (d : doubles.Double) → length (doubles.print_2f d) ≤ 313

  abbrev pub paragraph : List ℕ → List ℕ
  paragraph text = codes "<p>" ++ (text ++ (codes "</p>" ++ (13 ∷ b'\n' ∷ [])))

  -- The page that says that the program has spun for so many seconds.
  abbrev pub page : List ℕ → List ℕ
  page seconds =
      paragraph (codes "Welcome to the CGI program")
      ++ (paragraph (codes "My only purpose is to waste time on the server!")
          ++ paragraph (codes "I spun for " ++ (seconds ++ codes " seconds")))

  -- A time in seconds.
  abbrev pub in_seconds : Timeval → doubles.Double
  in_seconds t =
      doubles.plus (doubles.of_int t.tv_sec)
        (doubles.divide (doubles.of_int (pos t.tv_usec)) doubles.million)

  -- The header lines in front of a body.
  abbrev pub output_headers : List ℕ → List (List ℕ)
  output_headers body =
      (codes "Content-length: " ++ (print_nat (length body) ++ (13 ∷ [])))
      ∷ (codes "Content-type: text/html" ++ (13 ∷ []))
      ∷ []

  -- How many seconds the program is asked to sleep.
  abbrev pub asked_seconds : Query → doubles.Double
  asked_seconds absent = doubles.five
  asked_seconds (one_text c text) = doubles.atof (c ∷ text)
  asked_seconds (first_text c text rest) = doubles.atof (c ∷ text)
