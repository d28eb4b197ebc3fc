-- ===== src/Zmp.antt =====
-- src/net/zmp.cc, include/net/zmp.h: the ZMP requests of a telnet client. A handler goes by its number.
pub mod RoundTrip
pub mod Lookup
pub mod Examples
use sourcemud.Base.{
  ℕ, zero, suc, ◌+◌, ◌-◌, Bool, true, false, not, ◌&&◌, ◌||◌, Option, none, some, List, [], ◌∷◌,
  ◌++◌,
}
use sourcemud.Base.Lists.{length}
use sourcemud.Base.Options.{◌>>=◌}
use sourcemud.Base.Tests.{ltb, ◌==◌, if◌then◌else◌}
use sourcemud.Base.Text.{Text, codes, text_eq}
use sourcemud.Strings.Chars.{c_str, is_print, str_eq}

pub record ZmpCommand : Type 0 where
  pub name : Text
  pub function : ℕ
  pub wild : Bool

-- The last byte of a text that has one.
unfoldable pub last_byte : Text → Option ℕ
last_byte [] = none
last_byte (c ∷ []) = some c
last_byte (c ∷ d ∷ ds) = last_byte (d ∷ ds)

unfoldable pub ends_with_byte : ℕ → Text → Bool
unfolding last_byte
ends_with_byte b text = elim (last_byte text) [ none ↦ false | some c ↦ c == b ]

-- `SZMPManager::add`; a handler of `none` is NULL.
unfoldable pub add_command : Text → Option ℕ → List ZmpCommand → Option (List ZmpCommand)
unfolding ends_with_byte
add_command [] func commands = none
add_command (c ∷ cs) none commands = none
add_command (c ∷ cs) (some f) commands =
    some (
      commands
      ++ (record { name = c ∷ cs; function = f; wild = ends_with_byte b'.' (c ∷ cs) } ∷ []))

-- Whether a registered command serves a name.
unfoldable pub serves : ZmpCommand → Text → Bool
serves command request =
    if command.wild
    then str_eq command.name request (length command.name)
    else text_eq command.name request

unfoldable pub lookup : List ZmpCommand → Text → Option ZmpCommand
unfolding serves
lookup [] request = none
lookup (command ∷ commands) request = elim (serves command request) [
  | true ↦ some command
  | false ↦ lookup commands request
]

-- One command under a pattern; a pattern that ends in a dot asks for a package.
matches : ZmpCommand → Text → Bool
unfolding ends_with_byte
matches command pattern =
    if ends_with_byte b'.' pattern && str_eq command.name pattern (length pattern)
    then true
    else if not (ends_with_byte b'.' pattern) && text_eq command.name pattern
    then true
    else command.wild && str_eq command.name pattern (length command.name)

any_matches : List ZmpCommand → Text → Bool
unfolding matches
any_matches [] pattern = false
any_matches (command ∷ commands) pattern = matches command pattern || any_matches commands pattern

unfoldable pub match_pattern : List ZmpCommand → Text → Bool
unfolding any_matches
match_pattern commands [] = false
match_pattern commands (c ∷ cs) = any_matches commands (c ∷ cs)

-- `checkZmpChunk`; the size is that of the list.
unfoldable pub check_zmp_chunk : Text → Bool
unfolding ends_with_byte
check_zmp_chunk [] = false
check_zmp_chunk (c ∷ []) = false
check_zmp_chunk (c ∷ d ∷ ds) = is_print c && ends_with_byte 0 (c ∷ d ∷ ds)

-- What stands behind the first zero byte; without one the search leaves the chunk.
unfoldable pub after_nul : Text → Option Text
after_nul [] = none
after_nul (c ∷ cs) = let rest = after_nul cs in if c == 0 then some cs else rest

-- The parse loop, with room for some arguments more. Where the zero byte was the last, it ends.
unfoldable pub zmp_args : ℕ → Text → Option (List Text)
unfolding after_nul
zmp_args zero text = some []
zmp_args (suc room) text = after_nul text >>= λ rest. elim rest [
  | [] ↦ some []
  | c ∷ cs ↦ zmp_args room (c ∷ cs) >>= λ args. some (c_str (c ∷ cs) ∷ args)
]

abbrev pub argv_size : ℕ
argv_size = 20

-- The call of a handler.
zmp_call : Text → Option ZmpCommand → Option (Option (ℕ × List Text))
unfolding zmp_args
zmp_call chunk none = some none
zmp_call chunk (some command) =
    zmp_args (argv_size - 1) chunk >>= λ args. some (some (command.function, c_str chunk ∷ args))

-- `processZmp`: the handler that is called and its arguments, if any; `none` where the parse would
-- leave the chunk.
unfoldable pub process_zmp : List ZmpCommand → Text → Option (Option (ℕ × List Text))
unfolding check_zmp_chunk lookup zmp_call
process_zmp commands chunk =
    if check_zmp_chunk chunk then zmp_call chunk (lookup commands (c_str chunk)) else some none

-- What `sendZmp` and `addZmp` write between the begin and the end of a request.
unfoldable pub payload : List Text → Text
payload [] = []
payload (arg ∷ args) = arg ++ (0 ∷ payload args)

-- `handle_zmp_check`: the answer, if any.
unfoldable pub handle_check : List ZmpCommand → List Text → Option (List Text)
unfolding match_pattern
handle_check commands (name ∷ pattern ∷ []) = some (
    (if match_pattern commands pattern then codes "zmp.support" else codes "zmp.no-support")
    ∷ pattern
    ∷ [])
handle_check commands _ = none
