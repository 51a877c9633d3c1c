-- ===== src/Cli/Arguments/Hoist.antt =====
-- What becomes of flags that stand before the command.
use mathlib.Core.List.{append-nil, append_assoc}
use auth_sdk_go.Base.{
  ◌≡◌, refl, sym, ap, subst, ◌∙◌, Bool, true, false, List, [], ◌∷◌, ◌++◌, some, arith,
}
use auth_sdk_go.Base.Text.{Bytes, bytes, same, same→eq, has_byte}
use auth_sdk_go.Cli.Arguments.{
  terminator, lone_flag, hungry_flag, word, argument_kind, trim_dashes, before_equals,
  is_global_bool, is_global, Lead, stays, lone, leads_next, lead_of, take_leading, hoist_parts,
  hoist_leading_flags, dispatch, dispatch_args,
}
use auth_sdk_go.Cli.Arguments.Partition.{Splits, done, stop, alone, takes, word_first, Splits-eq}

-- A line with no terminator, in which every flag that takes a value has one.
pub data Settled (is_bool : Bytes → Bool) : List Bytes → List Bytes → List Bytes → Type 0 where
  none_left : Settled is_bool [] [] []
  lone_next :
      {a : Bytes} {rest flags words : List Bytes}
      → argument_kind is_bool a ≡ lone_flag
      → Settled is_bool rest flags words
      → Settled is_bool (a ∷ rest) (a ∷ flags) words
  valued_next :
      {a b : Bytes} {rest flags words : List Bytes}
      → argument_kind is_bool a ≡ hungry_flag
      → Settled is_bool rest flags words
      → Settled is_bool (a ∷ b ∷ rest) (a ∷ b ∷ flags) words
  word_next :
      {a : Bytes} {rest flags words : List Bytes}
      → argument_kind is_bool a ≡ word
      → Settled is_bool rest flags words
      → Settled is_bool (a ∷ rest) flags (a ∷ words)

Settled-append :
    {is_bool : Bytes → Bool} {before flags words : List Bytes} {after flags' words' : List Bytes}
    → Settled is_bool before flags words
    → Splits is_bool after flags' words'
    → Splits is_bool (before ++ after) (flags ++ flags') (words ++ words')
Settled-append none_left s = s
Settled-append (lone_next k h) s = alone k (Settled-append h s)
Settled-append (valued_next k h) s = takes k (Settled-append h s)
Settled-append (word_next k h) s = word_first k (Settled-append h s)

Settled-Splits :
    {is_bool : Bytes → Bool} {args flags words : List Bytes}
    → Settled is_bool args flags words
    → Splits is_bool args flags words
Settled-Splits none_left = done
Settled-Splits (lone_next k h) = alone k (Settled-Splits h)
Settled-Splits (valued_next k h) = takes k (Settled-Splits h)
Settled-Splits (word_next k h) = word_first k (Settled-Splits h)

take_leading-append : (args : List Bytes) → (take_leading args).0 ++ (take_leading args).1 ≡ args
unfolding take_leading
take_leading-append [] = refl
take_leading-append (a ∷ []) = ground arith
take_leading-append (a ∷ b ∷ rest) =
    ground (arith, take_leading-append (b ∷ rest), take_leading-append rest)

-- The flags that every command has are registered with it.
abbrev RegistersGlobals : (Bytes → Bool) → Type 0
RegistersGlobals is_bool =
    (name : Bytes) → is_global name ≡ true → is_bool name ≡ is_global_bool name

has_byte-trim_dashes : (a : Bytes) → has_byte b'=' (trim_dashes a) ≡ has_byte b'=' a
unfolding has_byte trim_dashes
has_byte-trim_dashes [] = refl
has_byte-trim_dashes (c ∷ a) = ground (arith, has_byte-trim_dashes a)

before_equals_none : (a : Bytes) → has_byte b'=' a ≡ false → before_equals a ≡ a
unfolding has_byte before_equals
before_equals_none [] h = refl
before_equals_none (c ∷ a) h = ground (arith, before_equals_none a)

lead_of-dashes : lead_of (bytes "--") ≡ stays
unfolding lead_of
lead_of-dashes = refl

lead_of-terminator : (a : Bytes) → same a (bytes "--") ≡ true → lead_of a ≡ stays
lead_of-terminator a h = ap lead_of (same→eq a (bytes "--") h) ∙ lead_of-dashes

data LeadCase (l : Lead) : Type 0 where
  is_stays : l ≡ stays → LeadCase l
  is_lone : l ≡ lone → LeadCase l
  is_leads_next : l ≡ leads_next → LeadCase l

Lead-cases : (l : Lead) → LeadCase l
Lead-cases stays = LeadCase.is_stays refl
Lead-cases lone = LeadCase.is_lone refl
Lead-cases leads_next = LeadCase.is_leads_next refl

hoist_parts_lem :
    (args leading others : List Bytes) {cmd : Bytes} {rest : List Bytes}
    → leading ++ others ≡ args
    → others ≡ cmd ∷ rest
    → hoist_parts args (leading, others) ≡ cmd ∷ (rest ++ leading)
hoist_parts_lem args [] others {cmd} {rest} e o =
    sym e ∙ o ∙ ap (λ r. cmd ∷ r) (sym (append-nil rest))
hoist_parts_lem args (l ∷ leading) [] e o = cc
hoist_parts_lem args (l ∷ leading) (c ∷ others) e o = ground (arith, o)

module _ (is_bool : Bytes → Bool) (registered : RegistersGlobals is_bool) where
  argument_kind-lone : (a : Bytes) → lead_of a ≡ lone → argument_kind is_bool a ≡ lone_flag
  unfolding lead_of argument_kind
  argument_kind-lone a h = ground (
    arith,
    lead_of-terminator a,
    has_byte-trim_dashes a,
    before_equals_none (trim_dashes a),
    registered (trim_dashes a),
  )

  argument_kind-leads_next :
      (a : Bytes) → lead_of a ≡ leads_next → argument_kind is_bool a ≡ hungry_flag
  unfolding lead_of argument_kind
  argument_kind-leads_next a h = ground (
    arith,
    lead_of-terminator a,
    has_byte-trim_dashes a,
    before_equals_none (trim_dashes a),
    registered (trim_dashes a),
  )

  leading-Settled :
      (args : List Bytes) (cmd : Bytes) (others : List Bytes)
      → (take_leading args).1 ≡ cmd ∷ others
      → Settled is_bool (take_leading args).0 (take_leading args).0 []
  unfolding take_leading
  leading-Settled [] cmd others e = cc
  leading-Settled (a ∷ []) cmd others e = elim (Lead-cases (lead_of a)) [
    | LeadCase.is_stays k ↦ rw (k, take_leading) none_left
    | LeadCase.is_lone k ↦ absurd (ground (arith, k))
    | LeadCase.is_leads_next k ↦ absurd (ground (arith, k))
  ]
  leading-Settled (a ∷ b ∷ rest) cmd others e = elim (Lead-cases (lead_of a)) [
    | LeadCase.is_stays k ↦ rw (k, take_leading) none_left
    | LeadCase.is_lone k ↦
        rw (k, take_leading)
          (lone_next (argument_kind-lone a k)
            (leading-Settled (b ∷ rest) cmd others (ground (arith, k, e))))
    | LeadCase.is_leads_next k ↦
        rw (k, take_leading)
          (valued_next (argument_kind-leads_next a k)
            (leading-Settled rest cmd others (ground (arith, k, e))))
  ]

hoist_leading_flags_lem :
    (args : List Bytes) {cmd : Bytes} {rest : List Bytes}
    → (take_leading args).1 ≡ cmd ∷ rest
    → hoist_leading_flags args ≡ cmd ∷ (rest ++ (take_leading args).0)
unfolding hoist_leading_flags
hoist_leading_flags_lem args {cmd} {rest} e = hoist_parts_lem args _ _ (take_leading-append args) e

module _ (is_bool : Bytes → Bool) (args : List Bytes) {cmd : Bytes} {rest flags words : List Bytes}
    (command : (take_leading args).1 ≡ cmd ∷ rest) where
  dispatch-Splits :
      Splits is_bool (rest ++ (take_leading args).0) flags words
      → dispatch is_bool args ≡ some (cmd, flags, words)
  unfolding dispatch
  dispatch-Splits s =
      ap (dispatch_args is_bool) (hoist_leading_flags_lem args command)
      ∙ ap (λ p. some (cmd, p.0, p.1)) (Splits-eq s)

argument_kind-dashes : (is_bool : Bytes → Bool) → argument_kind is_bool (bytes "--") ≡ terminator
unfolding argument_kind
argument_kind-dashes is_bool = refl

-- Let the command register the global flags, as Boolean or not as the probe of hoistLeadingFlags
-- does. Flags that stand before the command, with their values, are flags of the command after its
-- own, where the rest of the line has no terminator and every flag in it that takes a value has one;
-- the positional arguments are those of the rest of the line.
pub dispatch-leading :
    (is_bool : Bytes → Bool)
    → RegistersGlobals is_bool
    → (args : List Bytes) (cmd : Bytes) (rest : List Bytes) {flags words : List Bytes}
    → (take_leading args).1 ≡ cmd ∷ rest
    → Settled is_bool rest flags words
    → dispatch is_bool args ≡ some (cmd, flags ++ (take_leading args).0, words)
dispatch-leading is_bool registered args cmd rest {flags} {words} command settled =
    dispatch-Splits is_bool args command (
      subst (Splits is_bool _ _) (append-nil words) (
        Settled-append settled
          (Settled-Splits (leading-Settled is_bool registered args cmd rest command))))

-- Where the rest of the line has a terminator, after arguments among which every flag that takes a
-- value has one, all flags that stand before the command are positional arguments of it, at the end,
-- and none of its flags.
pub dispatch_lost :
    (is_bool : Bytes → Bool)
    → (args : List Bytes) (cmd : Bytes) (before after : List Bytes) {flags words : List Bytes}
    → (take_leading args).1 ≡ cmd ∷ (before ++ bytes "--" ∷ after)
    → Settled is_bool before flags words
    → dispatch is_bool args ≡ some (cmd, flags, words ++ (after ++ (take_leading args).0))
dispatch_lost is_bool args cmd before after {flags} {words} command settled =
    let leading = (take_leading args).0 in
    dispatch-Splits is_bool args command (
      subst (λ line. Splits is_bool line flags (words ++ (after ++ leading)))
        (sym (append_assoc before _ _))
        (subst
          (λ f.
            Splits is_bool (before ++ bytes "--" ∷ (after ++ leading)) f
              (words ++ (after ++ leading)))
          (append-nil flags) (Settled-append settled (stop (argument_kind-dashes is_bool)))))
