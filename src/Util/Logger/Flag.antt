-- ===== src/Util/Logger/Flag.antt =====
-- The save flag of `Info`, `Warn` and `Error` (util/logger.go).
use kws_control.Common.{Bool, false, List, [], ◌∷◌, ◌++◌, ◌≡◌, refl, ap, ◌∙◌, sym}
use kws_control.Common.Lists.{All}
use kws_control.Common.Text.{GoString}
use kws_control.Util.Logger.Calls.{
  Argument, boolean, text, value, filtered, filter_args, parse_log_args, message_of,
}

module _ {ℓ} {V : Type ℓ} where
  abbrev IsPlain : Argument V → Type 0
  IsPlain (boolean b) = ⊥
  IsPlain (text s) = Unit
  IsPlain (value v) = Unit

  filter_plain :
      (save : Bool) (args : List (Argument V))
      → All IsPlain args
      → filter_args save args ≡ (save, args)
  unfolding filter_args
  filter_plain save [] h = refl
  filter_plain save (boolean b ∷ args) (impossible, h) = absurd impossible
  filter_plain save (text s ∷ args) (_, h) = ap (filtered (text s)) (filter_plain save args h)
  filter_plain save (value v ∷ args) (_, h) = ap (filtered (value v)) (filter_plain save args h)

  filter_flag :
      (save b : Bool) (before after : List (Argument V))
      → All IsPlain after
      → filter_args save (before ++ boolean b ∷ after) ≡ (b, (filter_args save (before ++ after)).1)
  unfolding filter_args
  filter_flag save b [] after h =
      filter_plain b after h ∙ ap (λ p. (b, p.1)) (sym (filter_plain save after h))
  filter_flag save b (boolean v ∷ before) after h = filter_flag v b before after h
  filter_flag save b (text s ∷ before) after h =
      ap (filtered (text s)) (filter_flag save b before after h)
  filter_flag save b (value v ∷ before) after h =
      ap (filtered (value v)) (filter_flag save b before after h)

module _ {ℓ} {V : Type ℓ} (sprintf : GoString → List (Argument V) → GoString)
    (sprint : List (Argument V) → GoString) (show : V → GoString) where
  -- The last bool among the arguments, wherever it stands, is the save flag, and the message is that
  -- of the arguments without it.
  parse_log_args-flag :
      (b : Bool) (before after : List (Argument V))
      → All IsPlain after
      → parse_log_args sprintf sprint show (before ++ boolean b ∷ after)
        ≡ ((parse_log_args sprintf sprint show (before ++ after)).0, b)
  unfolding parse_log_args
  parse_log_args-flag b before after h =
      ap (λ p. (message_of sprintf sprint show p.1, p.0)) (filter_flag false b before after h)
