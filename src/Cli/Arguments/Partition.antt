-- ===== src/Cli/Arguments/Partition.antt =====
-- What partitionArgs does with every argument.
use auth_sdk_go.Base.{◌≡◌, refl, Bool, List, [], ◌∷◌, arith}
use auth_sdk_go.Base.Text.{Bytes}
use auth_sdk_go.Cli.Arguments.{
  Kind, terminator, lone_flag, hungry_flag, word, argument_kind, partition_args,
}

-- A line of arguments made of flags and positional arguments, each in their order: a word is
-- positional, a flag is a flag, alone or with the next argument as its value, and after a
-- terminator, which is dropped, all is positional.
pub data Splits (is_bool : Bytes → Bool) : List Bytes → List Bytes → List Bytes → Type 0 where
  done : Splits is_bool [] [] []
  stop :
      {a : Bytes} {rest : List Bytes}
      → argument_kind is_bool a ≡ terminator
      → Splits is_bool (a ∷ rest) [] rest
  alone :
      {a : Bytes} {rest flags words : List Bytes}
      → argument_kind is_bool a ≡ lone_flag
      → Splits is_bool rest flags words
      → Splits is_bool (a ∷ rest) (a ∷ flags) words
  wants : {a : Bytes} → argument_kind is_bool a ≡ hungry_flag → Splits is_bool (a ∷ []) (a ∷ []) []
  takes :
      {a b : Bytes} {rest flags words : List Bytes}
      → argument_kind is_bool a ≡ hungry_flag
      → Splits is_bool rest flags words
      → Splits is_bool (a ∷ b ∷ rest) (a ∷ b ∷ flags) words
  word_first :
      {a : Bytes} {rest flags words : List Bytes}
      → argument_kind is_bool a ≡ word
      → Splits is_bool rest flags words
      → Splits is_bool (a ∷ rest) flags (a ∷ words)

data KindCase (k : Kind) : Type 0 where
  is_terminator : k ≡ terminator → KindCase k
  is_lone : k ≡ lone_flag → KindCase k
  is_hungry : k ≡ hungry_flag → KindCase k
  is_word : k ≡ word → KindCase k

Kind-cases : (k : Kind) → KindCase k
Kind-cases terminator = KindCase.is_terminator refl
Kind-cases lone_flag = KindCase.is_lone refl
Kind-cases hungry_flag = KindCase.is_hungry refl
Kind-cases word = KindCase.is_word refl

-- The function finds the one way to split a line.
pub Splits-eq :
    {is_bool : Bytes → Bool} {args flags words : List Bytes}
    → Splits is_bool args flags words
    → partition_args is_bool args ≡ (flags, words)
unfolding partition_args
Splits-eq done = refl
Splits-eq (stop {rest = []} k) = ground (arith, k)
Splits-eq (stop {rest = b ∷ rest} k) = ground (arith, k)
Splits-eq (alone {rest = []} k h) = ground (arith, k, Splits-eq h)
Splits-eq (alone {rest = b ∷ rest} k h) = ground (arith, k, Splits-eq h)
Splits-eq (wants k) = ground (arith, k)
Splits-eq (takes k h) = ground (arith, k, Splits-eq h)
Splits-eq (word_first {rest = []} k h) = ground (arith, k, Splits-eq h)
Splits-eq (word_first {rest = b ∷ rest} k h) = ground (arith, k, Splits-eq h)

module _ (is_bool : Bytes → Bool) where
  pub partition_args-Splits :
      (args : List Bytes)
      → Splits is_bool args (partition_args is_bool args).0 (partition_args is_bool args).1
  unfolding partition_args
  partition_args-Splits [] = done
  partition_args-Splits (a ∷ []) = elim (Kind-cases (argument_kind is_bool a)) [
    | KindCase.is_terminator k ↦ rw (k, partition_args) (stop k)
    | KindCase.is_lone k ↦ rw (k, partition_args) (alone k done)
    | KindCase.is_hungry k ↦ rw (k, partition_args) (wants k)
    | KindCase.is_word k ↦ rw (k, partition_args) (word_first k done)
  ]
  partition_args-Splits (a ∷ b ∷ rest) = elim (Kind-cases (argument_kind is_bool a)) [
    | KindCase.is_terminator k ↦ rw (k, partition_args) (stop k)
    | KindCase.is_lone k ↦ rw (k, partition_args) (alone k (partition_args-Splits (b ∷ rest)))
    | KindCase.is_hungry k ↦ rw (k, partition_args) (takes k (partition_args-Splits rest))
    | KindCase.is_word k ↦ rw (k, partition_args) (word_first k (partition_args-Splits (b ∷ rest)))
  ]
