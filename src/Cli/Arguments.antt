-- ===== src/Cli/Arguments.antt =====
-- cmd/ab0t-auth/main.go: the arguments of the command line. The section's parameter says which
-- flags of a command's FlagSet are Boolean, by name.
pub mod Partition
pub mod Kept
pub mod Hoist
pub mod Tests
use auth_sdk_go.Base.{
  ℕ, suc, Bool, true, false, not, ◌&&◌, ◌||◌, List, [], ◌∷◌, ◌++◌, Option, none, some, ◌==◌, ltb,
  if◌then◌else◌, length,
}
use auth_sdk_go.Base.Text.{Bytes, bytes, same, has_prefix, has_byte}

-- `strings.HasPrefix(a, "-") && len(a) > 1`
abbrev is_flag : Bytes → Bool
is_flag a = has_prefix a (bytes "-") && ltb 1 (length a)

-- `strings.TrimLeft(a, "-")`
unfoldable pub trim_dashes : Bytes → Bytes
trim_dashes [] = []
trim_dashes (c ∷ a) = if c == b'-' then trim_dashes a else c ∷ a

-- `name[:eq]`, where there is an equals sign.
unfoldable pub before_equals : Bytes → Bytes
before_equals [] = []
before_equals (c ∷ a) = if c == b'=' then [] else c ∷ before_equals a

-- What an argument is: the end of the flags, a flag by itself, a flag that takes the next argument
-- as its value, or a word.
pub data Kind : Type 0 where
  terminator lone_flag hungry_flag word : Kind

module _ (is_bool : Bytes → Bool) where
  unfoldable pub argument_kind : Bytes → Kind
  unfolding same has_prefix has_byte trim_dashes
  argument_kind a =
      if same a (bytes "--")
      then terminator
      else if is_flag a
      then if has_byte b'=' (trim_dashes a) || is_bool (trim_dashes a)
        then lone_flag
        else hungry_flag
      else word

  -- The flags with their values, and the positional arguments.
  unfoldable pub partition_args : List Bytes → List Bytes × List Bytes
  unfolding argument_kind
  partition_args [] = ([], [])
  partition_args (a ∷ []) = elim (argument_kind a) [
    | terminator ↦ ([], [])
    | lone_flag ↦ (a ∷ [], [])
    | hungry_flag ↦ (a ∷ [], [])
    | word ↦ ([], a ∷ [])
  ]
  partition_args (a ∷ b ∷ rest) = elim (argument_kind a) [
    | terminator ↦ ([], b ∷ rest)
    | lone_flag ↦ (let (flags, positional) = partition_args (b ∷ rest) in (a ∷ flags, positional))
    | hungry_flag ↦ (let (flags, positional) = partition_args rest in (a ∷ b ∷ flags, positional))
    | word ↦ (let (flags, positional) = partition_args (b ∷ rest) in (flags, a ∷ positional))
  ]

-- The flags that every command has, by `globals.register`.
abbrev pub is_global_bool : Bytes → Bool
is_global_bool name =
    same name (bytes "json")
    || (same name (bytes "quiet") || (same name (bytes "color") || same name (bytes "no-color")))

unfoldable pub is_global : Bytes → Bool
unfolding same
is_global name =
    is_global_bool name
    || (same name (bytes "server")
        || (same name (bytes "token")
            || (same name (bytes "timeout")
                || (same name (bytes "profile") || same name (bytes "env")))))

-- What hoistLeadingFlags does with an argument before the command.
pub data Lead : Type 0 where
  stays lone leads_next : Lead

unfoldable pub lead_of : Bytes → Lead
unfolding same has_prefix has_byte trim_dashes before_equals is_global
lead_of a =
    let name = before_equals (trim_dashes a) in
    if is_flag a && is_global name
    then if is_global_bool name || has_byte b'=' a then lone else leads_next
    else stays

-- The loop over the leading flags: those, and the rest.
unfoldable pub take_leading : List Bytes → List Bytes × List Bytes
unfolding lead_of
take_leading [] = ([], [])
take_leading (a ∷ []) = elim (lead_of a) [
  | stays ↦ ([], a ∷ [])
  | lone ↦ (a ∷ [], [])
  | leads_next ↦ (a ∷ [], [])
]
take_leading (a ∷ b ∷ rest) = elim (lead_of a) [
  | stays ↦ ([], a ∷ b ∷ rest)
  | lone ↦ (let (leading, others) = take_leading (b ∷ rest) in (a ∷ leading, others))
  | leads_next ↦ (let (leading, others) = take_leading rest in (a ∷ b ∷ leading, others))
]

abbrev pub hoist_parts : List Bytes → List Bytes × List Bytes → List Bytes
hoist_parts args ([], others) = args
hoist_parts args (l ∷ leading, []) = args
hoist_parts args (l ∷ leading, cmd ∷ rest) = (cmd ∷ rest) ++ l ∷ leading

unfoldable pub hoist_leading_flags : List Bytes → List Bytes
unfolding take_leading
hoist_leading_flags args = hoist_parts args (take_leading args)

-- What `run` hands to a command: its name, its flags and its positional arguments, where the name
-- is that of a command whose Boolean flags are the given ones.
abbrev pub dispatch_args : (Bytes → Bool) → List Bytes → Option (Bytes × List Bytes × List Bytes)
dispatch_args is_bool [] = none
dispatch_args is_bool (name ∷ rest) =
    let (flags, positional) = partition_args is_bool rest in some (name, flags, positional)

unfoldable pub dispatch : (Bytes → Bool) → List Bytes → Option (Bytes × List Bytes × List Bytes)
unfolding hoist_leading_flags partition_args
dispatch is_bool args = dispatch_args is_bool (hoist_leading_flags args)
