-- ===== src/Cli/Arguments/Kept.antt =====
-- partitionArgs loses no argument and keeps the order.
use auth_sdk_go.Base.{◌≡◌, refl, ap, ◌⊎◌, inl, inr, Bool, List, [], ◌∷◌, ◌++◌, arith}
use auth_sdk_go.Base.Text.{Bytes, bytes, same→eq}
use auth_sdk_go.Cli.Arguments.{terminator, argument_kind, partition_args}
use auth_sdk_go.Cli.Arguments.Partition.{
  Splits, done, stop, alone, wants, takes, word_first, Splits-eq, partition_args-Splits,
}

-- The third list is made of the first two, each in its order.
pub data Shuffles {ℓ} {A : Type ℓ} : List A → List A → List A → Type ℓ where
  none_left : Shuffles [] [] []
  from_first : {x : A} {xs ys zs : List A} → Shuffles xs ys zs → Shuffles (x ∷ xs) ys (x ∷ zs)
  from_second : {y : A} {xs ys zs : List A} → Shuffles xs ys zs → Shuffles xs (y ∷ ys) (y ∷ zs)

-- The arguments, of which one terminator may be dropped.
abbrev pub DropsTerminator : List Bytes → List Bytes → Type 0
DropsTerminator args kept =
    (args ≡ kept)
    ⊎ ((before : List Bytes) × (after : List Bytes) × (args ≡ before ++ bytes "--" ∷ after)
        × (kept ≡ before ++ after))

all_second {ℓ} : {A : Type ℓ} (ys : List A) → Shuffles [] ys ys
all_second [] = none_left
all_second (y ∷ ys) = from_second (all_second ys)

DropsTerminator-cons :
    (a : Bytes) {args kept : List Bytes}
    → DropsTerminator args kept
    → DropsTerminator (a ∷ args) (a ∷ kept)
DropsTerminator-cons a (inl e) = inl (ap (λ args. a ∷ args) e)
DropsTerminator-cons a (inr (before, after, e, k)) =
    inr (a ∷ before, after, ap (λ args. a ∷ args) e, ap (λ args. a ∷ args) k)

argument_kind-terminator :
    (is_bool : Bytes → Bool) (a : Bytes) → argument_kind is_bool a ≡ terminator → a ≡ bytes "--"
unfolding argument_kind
argument_kind-terminator is_bool a k = same→eq a (bytes "--") (ground arith)

-- What a split of a line is made of.
abbrev Made : List Bytes → List Bytes → List Bytes → Type 0
Made args flags words = (kept : List Bytes) × Shuffles flags words kept × DropsTerminator args kept

Splits-Made :
    {is_bool : Bytes → Bool} {args flags words : List Bytes}
    → Splits is_bool args flags words
    → Made args flags words
Splits-Made done = ([], none_left, inl refl)
Splits-Made {is_bool} (stop {a} {rest} k) = (
  rest,
  all_second rest,
  inr ([], rest, ap (λ b. b ∷ rest) (argument_kind-terminator is_bool a k), refl),
)
Splits-Made (alone {a} k h) =
    let (kept, s, d) = Splits-Made h in (a ∷ kept, from_first s, DropsTerminator-cons a d)
Splits-Made (wants {a} k) = (a ∷ [], from_first none_left, inl refl)
Splits-Made (takes {a} {b} k h) =
    let (kept, s, d) = Splits-Made h in
    (a ∷ b ∷ kept, from_first (from_first s), DropsTerminator-cons a (DropsTerminator-cons b d))
Splits-Made (word_first {a} k h) =
    let (kept, s, d) = Splits-Made h in (a ∷ kept, from_second s, DropsTerminator-cons a d)

flags_again :
    {is_bool : Bytes → Bool} {args flags words : List Bytes}
    → Splits is_bool args flags words
    → Splits is_bool flags flags []
flags_again done = done
flags_again (stop k) = done
flags_again (alone k h) = alone k (flags_again h)
flags_again (wants k) = wants k
flags_again (takes k h) = takes k (flags_again h)
flags_again (word_first k h) = flags_again h

-- partitionArgs loses no argument: its flags and its positional arguments, each in the order of the
-- line, make up the line, in which at most one argument "--" is dropped; and the flags that it
-- finds, taken as a line, have no positional argument, so that flag.Parse is given flags alone.
pub partition_args-keeps :
    (is_bool : Bytes → Bool) (args : List Bytes)
    → ((kept : List Bytes) × Shuffles
          (partition_args is_bool args).0
          (partition_args is_bool args).1
          kept
        × DropsTerminator args kept)
      × (partition_args is_bool (partition_args is_bool args).0
          ≡ ((partition_args is_bool args).0, []))
partition_args-keeps is_bool args = (
  Splits-Made (partition_args-Splits is_bool args),
  Splits-eq (flags_again (partition_args-Splits is_bool args)),
)
