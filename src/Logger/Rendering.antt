-- ===== src/Logger/Rendering.antt =====
-- What `log` prints, piece by piece of its format.
use mathlib.Core.List.{flatten}
use trading_system.Prelude.{ℕ, ◌≡◌, ◌≢◌, refl, ap, List, [], ◌∷◌, ◌++◌, arith}
use trading_system.Logger.{percent_sign, log_plain, log}

-- A character other than the per cent sign, an escaped one, or the place of a value.
pub data Piece : Type 0 where
  literal : (c : ℕ) → c ≢ percent_sign → Piece
  escape : Piece
  hole : Piece

-- How the format is written.
abbrev pub spell : List Piece → List ℕ
spell [] = []
spell (literal c _ ∷ ps) = c ∷ spell ps
spell (escape ∷ ps) = percent_sign ∷ percent_sign ∷ spell ps
spell (hole ∷ ps) = percent_sign ∷ spell ps

-- No hole is followed by a per cent sign.
abbrev pub Apart : List Piece → Type 0
Apart [] = Unit {0}
Apart (hole ∷ []) = Unit {0}
Apart (hole ∷ literal c _ ∷ ps) = Apart ps
Apart (hole ∷ _ ∷ ps) = ⊥
Apart (_ ∷ ps) = Apart ps

-- What is printed: values go to the holes in order. Once no value is left the rest is printed as it is
-- written, an escape with both its signs.
abbrev pub render : List Piece → List (List ℕ) → List ℕ
render ps [] = spell ps
render [] (v ∷ vs) = []
render (literal c _ ∷ ps) (v ∷ vs) = c ∷ render ps (v ∷ vs)
render (escape ∷ ps) (v ∷ vs) = percent_sign ∷ render ps (v ∷ vs)
render (hole ∷ ps) (v ∷ vs) = v ++ render ps vs

flatten-log_plain : (text : List ℕ) → flatten (log_plain text) ≡ text
unfolding log_plain flatten
flatten-log_plain [] = refl
flatten-log_plain (c ∷ cs) = ap (λ t. c ∷ t) (flatten-log_plain cs)

module _ (v : List ℕ) (vs : List (List ℕ)) where
  log-literal :
      (c : ℕ) (text : List ℕ)
      → c ≢ percent_sign
      → log (c ∷ text) (v ∷ vs) ≡ (c ∷ []) ∷ log text (v ∷ vs)
  unfolding log
  log-literal c [] n = ground arith
  log-literal c (d ∷ text) n = ground arith

  log-hole_last : flatten (log (percent_sign ∷ []) (v ∷ vs)) ≡ v ++ []
  unfolding log log_plain flatten
  log-hole_last = refl

  log-hole :
      (c : ℕ) (text : List ℕ)
      → c ≢ percent_sign
      → log (percent_sign ∷ c ∷ text) (v ∷ vs) ≡ v ∷ log (c ∷ text) vs
  unfolding log
  log-hole c text n = ground arith

-- No value is left, or the empty format prints nothing.
render-nil : (vs : List (List ℕ)) → render [] vs ≡ []
render-nil [] = refl
render-nil (v ∷ vs) = refl

-- For a format in which no hole is followed by a per cent sign, the strings of `log`, one after the
-- other, are what the format renders, however many values there are.
pub flatten-log :
    (ps : List Piece) (vs : List (List ℕ)) → Apart ps → flatten (log (spell ps) vs) ≡ render ps vs
unfolding log flatten
flatten-log ps [] h = flatten-log_plain (spell ps)
flatten-log [] (v ∷ vs) h = refl
flatten-log (literal c n ∷ ps) (v ∷ vs) h =
    rw (log-literal v vs c (spell ps) n) (ap (λ t. c ∷ t) (flatten-log ps (v ∷ vs) h))
flatten-log (escape ∷ ps) (v ∷ vs) h = ap (λ t. percent_sign ∷ t) (flatten-log ps (v ∷ vs) h)
flatten-log (hole ∷ []) (v ∷ vs) h = rw (log-hole_last v vs, render-nil vs) refl
flatten-log (hole ∷ literal c n ∷ ps) (v ∷ vs) h =
    rw (log-hole v vs c (spell ps) n) (ap (λ t. v ++ t) (flatten-log (literal c n ∷ ps) vs h))
flatten-log (hole ∷ escape ∷ ps) (v ∷ vs) h = elim h [ ]
flatten-log (hole ∷ hole ∷ ps) (v ∷ vs) h = elim h [ ]
