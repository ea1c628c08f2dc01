-- ===== src/Protocol/Numbers.antt =====
-- internal/protocol/msgid.go and lobby.go: the numbers of the messages and of the lobby's errors.
use lurkspire.Prelude.{ℕ}

abbrev pub msg_heartbeat : ℕ
msg_heartbeat = 9

abbrev pub msg_battle_join : ℕ
msg_battle_join = 300

abbrev pub msg_battle_join_ok : ℕ
msg_battle_join_ok = 301

abbrev pub msg_battle_input : ℕ
msg_battle_input = 310

abbrev pub msg_battle_player_info : ℕ
msg_battle_player_info = 335

abbrev pub msg_battle_err : ℕ
msg_battle_err = 349

abbrev pub msg_login : ℕ
msg_login = 200

abbrev pub msg_login_resp : ℕ
msg_login_resp = 201

abbrev pub msg_reg : ℕ
msg_reg = 202

abbrev pub msg_reg_resp : ℕ
msg_reg_resp = 203

abbrev pub msg_reconnect : ℕ
msg_reconnect = 204

abbrev pub msg_friend_search : ℕ
msg_friend_search = 210

abbrev pub msg_friend_search_r : ℕ
msg_friend_search_r = 211

abbrev pub msg_friend_invite : ℕ
msg_friend_invite = 212

abbrev pub msg_friend_invite_n : ℕ
msg_friend_invite_n = 213

abbrev pub msg_friend_accept : ℕ
msg_friend_accept = 214

abbrev pub msg_friend_reject : ℕ
msg_friend_reject = 215

abbrev pub msg_friend_list : ℕ
msg_friend_list = 216

abbrev pub msg_friend_pending_list : ℕ
msg_friend_pending_list = 218

abbrev pub msg_friend_online : ℕ
msg_friend_online = 217

abbrev pub msg_room_list : ℕ
msg_room_list = 220

abbrev pub msg_room_create : ℕ
msg_room_create = 221

abbrev pub msg_room_join : ℕ
msg_room_join = 222

abbrev pub msg_room_leave : ℕ
msg_room_leave = 223

abbrev pub msg_bag_list : ℕ
msg_bag_list = 230

abbrev pub msg_bag_equip : ℕ
msg_bag_equip = 231

abbrev pub lobby_ok : ℕ
lobby_ok = 0

abbrev pub lobby_err_bad_input : ℕ
lobby_err_bad_input = 1

abbrev pub lobby_err_account : ℕ
lobby_err_account = 2

abbrev pub lobby_err_nickname : ℕ
lobby_err_nickname = 3

abbrev pub lobby_err_no_account : ℕ
lobby_err_no_account = 4

abbrev pub lobby_err_password : ℕ
lobby_err_password = 5

abbrev pub lobby_err_token : ℕ
lobby_err_token = 6

abbrev pub lobby_err_not_friend : ℕ
lobby_err_not_friend = 7

abbrev pub lobby_err_self : ℕ
lobby_err_self = 8

abbrev pub lobby_err_room_full : ℕ
lobby_err_room_full = 9

abbrev pub lobby_err_room_exists : ℕ
lobby_err_room_exists = 10

abbrev pub lobby_err_room_missing : ℕ
lobby_err_room_missing = 11

abbrev pub lobby_err_equip : ℕ
lobby_err_equip = 12
