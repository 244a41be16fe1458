-- ===== src/Benchmark/Arguments.antt =====
-- The arguments of src/benchmark.c as its usage describes them, against the loop of `parse_args`.
use libemq.Base.{ℕ, false, Option, none, some, List, [], ◌∷◌, ◌≡◌, refl, All}
use libemq.Wire.{Text}
use libemq.Subscription.Names.{same}
use libemq.Benchmark.{
  Config, dash, name_option, password_option, noack_option, help_option, read_argument,
  next_argument, parse_args,
}

-- The options with a value, by what they set.
pub data Key : Type 0 where
  host port unix_socket user_name user_password clients messages msg_size expiration : Key

pub data Setting : Type 0 where
  valued : Key → Text → Setting
  noack help : Setting

abbrev option : Key → Text
option Key.host = dash b'h'
option Key.port = dash b'p'
option Key.unix_socket = dash b'u'
option Key.user_name = name_option
option Key.user_password = password_option
option Key.clients = dash b'c'
option Key.messages = dash b'm'
option Key.msg_size = dash b's'
option Key.expiration = dash b'e'

abbrev pub render : List Setting → List Text
render [] = []
render (valued k v ∷ ss) = option k ∷ v ∷ render ss
render (noack ∷ ss) = noack_option ∷ render ss
render (help ∷ ss) = help_option ∷ render ss

abbrev options : List Text
options =
    dash b'h'
    ∷ dash b'p'
    ∷ dash b'u'
    ∷ name_option
    ∷ password_option
    ∷ dash b'c'
    ∷ dash b'm'
    ∷ dash b's'
    ∷ dash b'e'
    ∷ noack_option
    ∷ help_option
    ∷ []

-- No value reads like an option.
abbrev pub IsSetting : Setting → Type 0
IsSetting (valued k v) = All (λ o. same v o ≡ false) options
IsSetting noack = Unit {0}
IsSetting help = Unit {0}

module _ (atoi : Text → ℕ) where
  abbrev set : Key → Text → Config → Config
  set Key.host v c = record c { host = v }
  set Key.port v c = record c { port = atoi v }
  set Key.unix_socket v c = record c { unix_socket = some v }
  set Key.user_name v c = record c { user_name = v }
  set Key.user_password v c = record c { user_password = v }
  set Key.clients v c = record c { clients = atoi v }
  set Key.messages v c = record c { messages = atoi v }
  set Key.msg_size v c = record c { msg_size = atoi v }
  set Key.expiration v c = record c { expiration = atoi v }

  -- The settings one after the other; `none` where help is asked for.
  abbrev pub configure : List Setting → Config → Option Config
  configure [] c = some c
  configure (valued k v ∷ ss) c = configure ss (set k v c)
  configure (noack ∷ ss) c = configure ss (record c { noack = 1 })
  configure (help ∷ ss) c = none

  read_argument-option :
      (k : Key) (v : Text) (c : Config)
      → read_argument atoi (option k) (some v) c ≡ some (set k v c)
  unfolding read_argument
  read_argument-option Key.host v c = refl
  read_argument-option Key.port v c = refl
  read_argument-option Key.unix_socket v c = refl
  read_argument-option Key.user_name v c = refl
  read_argument-option Key.user_password v c = refl
  read_argument-option Key.clients v c = refl
  read_argument-option Key.messages v c = refl
  read_argument-option Key.msg_size v c = refl
  read_argument-option Key.expiration v c = refl

  read_argument-value :
      (v : Text) (next : Option Text) (c : Config)
      → All (λ o. same v o ≡ false) options
      → read_argument atoi v next c ≡ some c
  unfolding read_argument
  read_argument-value v none c (h, (p, (u, (n, (w, (k, (m, (s, (e, (a, (l, end))))))))))) =
      rw (a, h, l) refl
  read_argument-value v (some x) c (h, (p, (u, (n, (w, (k, (m, (s, (e, (a, (l, end))))))))))) =
      rw (h, p, u, n, w, k, m, s, e, a, l) refl

  read_argument-noack :
      (next : Option Text) (c : Config)
      → read_argument atoi noack_option next c ≡ some (record c { noack = 1 })
  unfolding read_argument
  read_argument-noack none c = refl
  read_argument-noack (some x) c = refl

  read_argument-help :
      (next : Option Text) (c : Config) → read_argument atoi help_option next c ≡ none
  unfolding read_argument
  read_argument-help none c = refl
  read_argument-help (some x) c = refl

  -- On arguments that are options in the spelling of the usage, in any order and number, each with
  -- its value behind it, where no value reads like an option, `parse_args` sets what each of them
  -- names, the later ones over the earlier; with `--help` among them, and only then, the program
  -- shows its usage and ends.
  pub parse_args-render :
      (ss : List Setting) (c : Config)
      → All IsSetting ss
      → parse_args atoi (render ss) c ≡ configure ss c
  unfolding parse_args
  parse_args-render [] c ok = refl
  parse_args-render (valued k v ∷ ss) c (value, ok) =
      rw
        (
          read_argument-option k v c,
          read_argument-value v (next_argument atoi (render ss)) (set k v c) value,
        )
        (parse_args-render ss (set k v c) ok)
  parse_args-render (noack ∷ ss) c (value, ok) =
      rw (read_argument-noack (next_argument atoi (render ss)) c)
        (parse_args-render ss (record c { noack = 1 }) ok)
  parse_args-render (help ∷ ss) c (value, ok) =
      rw (read_argument-help (next_argument atoi (render ss)) c) refl
