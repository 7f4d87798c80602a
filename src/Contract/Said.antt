-- ===== src/Contract/Said.antt =====
-- What the users said in a conversation, and what is quoted from it.
use taka_ma.Common.{
  ◌≡◌, refl, ◌⊎◌, inl, inr, true, false, Option, none, some, list_eq, nat_eq, Text, has_part,
  CharTable, Dict, dict_get, arith,
}
use taka_ma.Routing.{truthy}
use taka_ma.Contract.{norm_ws, is_blank, is_verbatim, verbatim_at, verbatim_by, verbatim_in}

module _ (t : CharTable) (source_text : Text) (utterances : Option (Dict Text Text)) where
  -- What a user said: the whole conversation, or one utterance of it.
  abbrev pub IsSaid : Text → Type 0
  IsSaid said =
      (said ≡ source_text)
      ⊎ ((us : Dict Text Text) × (src : Text) × (utterances ≡ some us)
          × (dict_get us src ≡ some said))

  -- A text that is not blank and stands, up to white space, in what a user said.
  abbrev pub IsQuoted : Text → Type 0
  IsQuoted text =
      (said : Text) × IsSaid said
      × (is_blank t text ≡ false)
      × (has_part (norm_ws t said) (norm_ws t text) ≡ true)

  said-IsQuoted : (text said : Text) → IsSaid said → is_verbatim t text said ≡ true → IsQuoted text
  unfolding is_verbatim
  said-IsQuoted text said from h = (said, from, ground (arith, h), ground (arith, h))

  verbatim_by-IsQuoted :
      (text : Text) (src : Option Text) (us : Option (Dict Text Text))
      → utterances ≡ us
      → verbatim_by t source_text utterances text src us ≡ true
      → IsQuoted text
  verbatim_by-IsQuoted text none us e h = said-IsQuoted text source_text (inl refl) h
  verbatim_by-IsQuoted text (some src) none e h = said-IsQuoted text source_text (inl refl) h
  verbatim_by-IsQuoted text (some src) (some us) e h = go (dict_get us src) refl h
    where
      go : (o : Option Text) → dict_get us src ≡ o → verbatim_at t text o ≡ true → IsQuoted text
      go none q k = absurd (ground arith)
      go (some said) q k = said-IsQuoted text said (inr (us, src, e, q)) k

  pub verbatim_in-IsQuoted :
      (text : Text) (src : Option Text)
      → verbatim_in t source_text utterances text src ≡ true
      → IsQuoted text
  unfolding verbatim_in
  verbatim_in-IsQuoted text src h = verbatim_by-IsQuoted text (truthy src) utterances refl h
