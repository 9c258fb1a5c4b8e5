-- ===== src/Codegen/Prose/Wrapping.antt =====
-- The lines of a wrapped text: their words, and how long they are.
use Prim.Native.String.{count, ◌++◌ as str_append}
use text.Mathlib.TextLemmas.{nil-append, append_assoc, append-eq-nil_iff}
use claim_triage_agent.Common.{
  All-of, ℕ, ◌≤◌, ◌≡◌, ◌≢◌, refl, sym, ap, ◌∙◌, ◌⊎◌, inl, inr, String, true, false, List, [], ◌∷◌,
  All, Has, arith, eq_iff, Bool-cases, string_equality,
}
use claim_triage_agent.Codegen.{Python, joined}
use claim_triage_agent.Codegen.Prose.{wrapped, wrap_words, candidate, breaks}

-- A text that `str.strip` leaves as it is, and not the empty one.
unfoldable pub IsSolid : Python → String → Type 0
IsSolid py s = (py.strip s ≡ s) × (s ≢ "")

-- What `str.split` and `str.strip` document of the words of a text.
pub record IsSplitting (py : Python) : Type 0 where
  pub words : (text : String) → All (IsSolid py) (py.words text)
  pub alone : (w : String) → IsSolid py w → py.strip (str_append " " w) ≡ w
  pub beside :
      (c w : String)
      → IsSolid py c
      → IsSolid py w
      → py.strip (str_append c (str_append " " w)) ≡ str_append c (str_append " " w)

joined-cons :
    (sep s : String) (l : List String)
    → l ≢ []
    → joined sep (s ∷ l) ≡ str_append s (str_append sep (joined sep l))
unfolding joined
joined-cons sep s [] h = absurd (h refl)
joined-cons sep s (t ∷ l) h = refl

module _ (py : Python) (width : ℕ) where
  wrap_last : (c : String) → IsSolid py c → wrap_words py width c [] ≡ c ∷ []
  unfolding wrap_words IsSolid
  wrap_last c solid = ground (arith, solid.1, eq_iff c "")

  wrap_over :
      (c w : String) (ws : List String)
      → breaks py width c w ≡ true
      → wrap_words py width c (w ∷ ws) ≡ c ∷ wrap_words py width w ws
  unfolding wrap_words
  wrap_over c w ws over = cc (over)

  wrap_fits :
      (c w : String) (ws : List String)
      → breaks py width c w ≡ false
      → wrap_words py width c (w ∷ ws) ≡ wrap_words py width (candidate py c w) ws
  unfolding wrap_words
  wrap_fits c w ws fits = cc (fits)

  -- A line goes on only with what leaves it within the width.
  fits-le :
      (c w : String) → IsSolid py c → breaks py width c w ≡ false → count (candidate py c w) ≤ width
  unfolding breaks IsSolid
  fits-le c w solid fits = ground (arith, solid.1, eq_iff c "", fits)

module _ (py : Python) (laws : IsSplitting py) (width : ℕ) where
  candidate-IsSolid : (c w : String) → IsSolid py c → IsSolid py w → IsSolid py (candidate py c w)
  unfolding IsSolid
  candidate-IsSolid c w ic iw = (
    ap py.strip (laws.beside c w ic iw),
    λ e. ic.1 ((append-eq-nil_iff.0 (sym (laws.beside c w ic iw) ∙ e)).0),
  )

  wrap_words-ne :
      (c : String) (ws : List String)
      → IsSolid py c
      → All (IsSolid py) ws
      → wrap_words py width c ws ≢ []
  wrap_words-ne c [] ic iws = rw (wrap_last py width c ic) (ground arith)
  wrap_words-ne c (w ∷ ws) ic iws = elim (Bool-cases (breaks py width c w)) [
    | inl over ↦ rw (wrap_over py width c w ws over) (ground arith)
    | inr fits ↦
        rw (wrap_fits py width c w ws fits)
          (wrap_words-ne (candidate py c w) ws (candidate-IsSolid c w ic iws.0) iws.1)
  ]

  joined_next :
      (c w : String) (ws : List String)
      → IsSolid py c
      → IsSolid py w
      → joined " " (candidate py c w ∷ ws) ≡ joined " " (c ∷ w ∷ ws)
  unfolding joined
  joined_next c w [] ic iw = laws.beside c w ic iw
  joined_next c w (v ∷ ws) ic iw = cc (
    laws.beside c w ic iw,
    append_assoc c (str_append " " w) (str_append " " (joined " " (v ∷ ws))),
    append_assoc " " w (str_append " " (joined " " (v ∷ ws))),
  )

  -- From a line begun, the lines hold its words and those to come.
  wrap_words-joined :
      (c : String) (ws : List String)
      → IsSolid py c
      → All (IsSolid py) ws
      → joined " " (wrap_words py width c ws) ≡ joined " " (c ∷ ws)
  wrap_words-joined c [] ic iws = ap (joined " ") (wrap_last py width c ic)
  wrap_words-joined c (w ∷ ws) ic iws = elim (Bool-cases (breaks py width c w)) [
    | inl over ↦ cc (
      wrap_over py width c w ws over,
      joined-cons " " c (wrap_words py width w ws) (wrap_words-ne w ws iws.0 iws.1),
      joined-cons " " c (w ∷ ws) (λ e. absurd (ground (arith, e))),
      wrap_words-joined w ws iws.0 iws.1,
    )
    | inr fits ↦ cc (
      wrap_fits py width c w ws fits,
      wrap_words-joined (candidate py c w) ws (candidate-IsSolid c w ic iws.0) iws.1,
      joined_next c w ws ic iws.0,
    )
  ]

  module _ (P : String → Type 0) (short : (s : String) → count s ≤ width → P s) where
    wrap_words-All :
        (c : String) (ws : List String)
        → IsSolid py c
        → P c
        → All (IsSolid py) ws
        → All P ws
        → All P (wrap_words py width c ws)
    wrap_words-All c [] ic pc iws pws = rw (wrap_last py width c ic, All) (pc, tt)
    wrap_words-All c (w ∷ ws) ic pc iws pws = elim (Bool-cases (breaks py width c w)) [
      | inl over ↦
          rw (wrap_over py width c w ws over, All) (pc, wrap_words-All w ws iws.0 pws.0 iws.1 pws.1)
      | inr fits ↦ rw (wrap_fits py width c w ws fits) (
          wrap_words-All (candidate py c w) ws (candidate-IsSolid c w ic iws.0)
            (short (candidate py c w) (fits-le py width c w ic fits)) iws.1 pws.1)
    ]

  wrap_start :
      (w : String) (ws : List String)
      → IsSolid py w
      → wrap_words py width "" (w ∷ ws) ≡ wrap_words py width w ws
  unfolding breaks
  wrap_start w ws solid =
      wrap_fits py width "" w ws refl
      ∙ ap (λ c. wrap_words py width c ws)
          (ap py.strip (nil-append (str_append " " w)) ∙ laws.alone w solid)

  keeps_words :
      (ws : List String)
      → All (IsSolid py) ws
      → (joined " " (wrap_words py width "" ws) ≡ joined " " ws)
        × All (λ line. (count line ≤ width) ⊎ Has line ws) (wrap_words py width "" ws)
  unfolding wrap_words
  keeps_words [] solid = (refl, tt)
  keeps_words (w ∷ ws) solid = rw (wrap_start w ws solid.0) (
    wrap_words-joined w ws solid.0 solid.1,
    wrap_words-All (λ line. (count line ≤ width) ⊎ Has line (w ∷ ws)) (λ line short. inl short) w ws
        solid.0 (inr (inl refl)) solid.1 (All-of ws (λ x held. inr (inr held))),
  )

-- Where `str.split` and `str.strip` do what they document, wrapping keeps the words of a text and
-- their order, and puts no more on a line than the width allows, unless the line is a single word.
pub wrapped_keeps :
    (py : Python) (width : ℕ) (text : String)
    → IsSplitting py
    → (joined " " (wrapped py text width) ≡ joined " " (py.words text))
      × All (λ line. (count line ≤ width) ⊎ Has line (py.words text)) (wrapped py text width)
unfolding wrapped
wrapped_keeps py width text laws = keeps_words py laws width (py.words text) (laws.words text)
