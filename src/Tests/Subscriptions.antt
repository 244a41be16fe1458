-- ===== src/Tests/Subscriptions.antt =====
-- The searches over the subscriptions at concrete lists.
use libemq.Base.{refl, ℕ, some, [], ◌∷◌, List, ◌≡◌, arith}
use libemq.Client.{QueueSubscription}
use libemq.Subscription.{delete_named, text_bytes}
use libemq.Wire.{Text, fill_chars, read_text}
use libemq.Tests.{jobs}
use libemq.Subscription.Names.{Named, others, delete_named-others}

abbrev mail : Text
mail = b'm' ∷ b'a' ∷ b'i' ∷ b'l' ∷ []

-- Two subscriptions to "jobs" around one to "mail".
abbrev pub three : List QueueSubscription
three =
    record { name = fill_chars 64 jobs; callback = 1 }
    ∷ record { name = fill_chars 64 mail; callback = 2 }
    ∷ record { name = fill_chars 64 jobs; callback = 3 }
    ∷ []

abbrev queue_name : QueueSubscription → List ℕ
queue_name x = x.name

pub three-Named : Named queue_name three
unfolding fill_chars read_text
three-Named = omega arith

delete_named-others_example :
    delete_named queue_name (text_bytes jobs) three ≡ some (others queue_name jobs three)
delete_named-others_example = delete_named-others queue_name jobs three (omega arith) three-Named

mail_left : others queue_name jobs three ≡ record { name = fill_chars 64 mail; callback = 2 } ∷ []
unfolding fill_chars read_text
mail_left = refl
