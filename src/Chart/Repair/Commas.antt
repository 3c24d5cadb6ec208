-- ===== src/Chart/Repair/Commas.antt =====
-- The second pass removes the commas before a closing brace or bracket, and nothing else.
use unrender.Base.{ℕ, ◌≡◌, ◌≢◌, refl, ap, true, false, [], ◌∷◌, arith, ◌==◌, Bool-cases, inl, inr}
use unrender.Chart.Repair.{
  Text, Unicode, Mode, next_mode, is_closing, is_dropped, closes_next, remove_commas,
}

-- A text in which a closing brace or bracket follows the white space at the front.
pub data Closes (py : Unicode) : Text → Type 0 where
  closing : {t : Text} (c : ℕ) → py.isspace c ≡ false → is_closing c ≡ true → Closes py (c ∷ t)
  space : {t : Text} (c : ℕ) → py.isspace c ≡ true → Closes py t → Closes py (c ∷ t)

-- The second text is the first without its trailing commas: those outside strings, where a closing
-- brace or bracket follows. Every other character stands in both, commas between elements too.
pub data Trimmed (py : Unicode) : Mode → Text → Text → Type 0 where
  done : {m : Mode} → Trimmed py m [] []
  in_text :
      {m : Mode} {t u : Text} (c : ℕ)
      → m ≢ Mode.outside
      → Trimmed py (next_mode m c) t u
      → Trimmed py m (c ∷ t) (c ∷ u)
  other :
      {t u : Text} (c : ℕ)
      → (c == b',') ≡ false
      → Trimmed py (next_mode Mode.outside c) t u
      → Trimmed py Mode.outside (c ∷ t) (c ∷ u)
  between :
      {t u : Text}
      → ¬ Closes py t
      → Trimmed py Mode.outside t u
      → Trimmed py Mode.outside (b',' ∷ t) (b',' ∷ u)
  trailing :
      {t u : Text}
      → Closes py t
      → Trimmed py Mode.outside t u
      → Trimmed py Mode.outside (b',' ∷ t) u

module _ (py : Unicode) where
  closes_next-Closes : {t : Text} → Closes py t → closes_next py t ≡ true
  unfolding closes_next
  closes_next-Closes (Closes.closing c solid closed) = rw solid closed
  closes_next-Closes (Closes.space c blank h) = rw blank (closes_next-Closes h)

  Closes-closes_next : (t : Text) → closes_next py t ≡ true → Closes py t
  unfolding closes_next
  Closes-closes_next [] h = absurd (cc (h))
  Closes-closes_next (c ∷ t) h = elim (Bool-cases (py.isspace c)) [
    | inl e ↦ Closes.space c e (Closes-closes_next t (ground (arith, e, h)))
    | inr e ↦ Closes.closing c e (ground (arith, e, h))
  ]

  kept_comma : (t : Text) → ¬ Closes py t → closes_next py t ≡ false
  kept_comma t h = elim (Bool-cases (closes_next py t)) [
    | inl e ↦ absurd (h (Closes-closes_next t e))
    | inr e ↦ e
  ]

  inside-kept : (m : Mode) (c : ℕ) (t : Text) → m ≢ Mode.outside → is_dropped py m c t ≡ false
  inside-kept Mode.outside c t h = absurd (h refl)
  inside-kept Mode.in_string c t h = refl
  inside-kept Mode.escaped c t h = refl

  -- The pass computes the text without its trailing commas.
  pub remove_commas-Trimmed : {m : Mode} {t u : Text} → Trimmed py m t u → remove_commas py m t ≡ u
  unfolding remove_commas
  remove_commas-Trimmed Trimmed.done = refl
  remove_commas-Trimmed (Trimmed.in_text {m} {t} {u} c inside h) =
      rw (inside-kept m c t inside) (ap (λ (x : Text). c ∷ x) (remove_commas-Trimmed h))
  remove_commas-Trimmed (Trimmed.other {t} {u} c e h) =
      rw e (ap (λ (x : Text). c ∷ x) (remove_commas-Trimmed h))
  remove_commas-Trimmed (Trimmed.between {t} {u} kept h) =
      rw (kept_comma t kept) (ap (λ (x : Text). b',' ∷ x) (remove_commas-Trimmed h))
  remove_commas-Trimmed (Trimmed.trailing {t} {u} closed h) =
      rw (closes_next-Closes closed) (remove_commas-Trimmed h)
