-- ===== src/Store/Tests.antt =====
-- The theorems on internal/store with three users.
use lurkspire.Prelude.{◌≡◌, refl, [], ◌∷◌, none, true, false, lookup, IsMap}
use lurkspire.Store.Friends.{Friendships, pair_key, reject_friend, friend_ids}
use lurkspire.Store.Friends.Changes.{is_in, friend_ids-reject_friend}
use lurkspire.Prelude.{List, arith}
use lurkspire.Store.Users.{User, new_mem_store}
use lurkspire.Store.Users.Table.{new_table}
use lurkspire.Store.Users.Run.{
  Call, creates, gets_by_account, gets_by_nickname, gets_by_id, sets_equip, calls, queries,
  calls-new_mem_store,
}

-- User 1 has asked user 2, and user 3 has accepted what user 2 asked.
abbrev table : Friendships
table = ((1, 2), 0) ∷ ((2, 3), 1) ∷ []

table-IsMap : IsMap table
unfolding lookup
table-IsMap = (refl, (refl, tt))

befriended : is_in 2 (friend_ids 3 table) ≡ true
unfolding friend_ids
befriended = refl

not_asked : lookup (3, 2) table ≡ none
unfolding lookup
not_asked = refl

friend_ids-reject_friend_example : is_in 2 (friend_ids 3 (reject_friend 3 2 table)) ≡ false
friend_ids-reject_friend_example =
    friend_ids-reject_friend 3 2 table table-IsMap befriended not_asked

-- A user called `a` or `b`, with an account of the same letter.
abbrev ada : User
ada = record { id = 0; account = 97 ∷ []; password_hash = []; nickname = 65 ∷ []; equip_id = 0 }

abbrev bob : User
bob = record { id = 0; account = 98 ∷ []; password_hash = []; nickname = 65 ∷ []; equip_id = 0 }

-- The second user wants the nickname of the first, whose equipment changes.
abbrev operations : List Call
operations =
    creates ada
    ∷ creates bob
    ∷ sets_equip 1 2
    ∷ gets_by_account (97 ∷ [])
    ∷ gets_by_nickname (65 ∷ [])
    ∷ gets_by_id 2
    ∷ []

calls-new_mem_store_example : calls operations new_mem_store ≡ queries operations new_table
calls-new_mem_store_example = calls-new_mem_store operations (omega arith)
