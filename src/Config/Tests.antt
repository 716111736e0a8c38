-- ===== src/Config/Tests.antt =====
-- A table of two users, and the theorems at it.
use mathlib.Core.List.{Mem, Perm}
use tp_socks5_proxy.Base.{
  ℕ, suc, ◌≡◌, refl, ◌⊎◌, true, false, some, List, [], ◌∷◌, ◌++◌, Bytes, replicate, length, ◌≤◌,
  arith,
}
use tp_socks5_proxy.Buffer.{pos, negsuc}
use tp_socks5_proxy.Config.{
  User, Config, default_token, is_string, check_user, check_loop, delete_user, delete_loop,
  add_user, edit_user, set_buff_size, get_buff_size,
}
use tp_socks5_proxy.Config.Report.{get_users}
use tp_socks5_proxy.Config.Report.Listing.{listing, get_users-listing}
use tp_socks5_proxy.Config.Table.{Spells, Entry, Table, end, free, used, IsTable}
use tp_socks5_proxy.Config.Users.{Answers, check_user-Answers, add_user_lem}
use tp_socks5_proxy.Config.Delete.{delete_user_lem}
use tp_socks5_proxy.Config.Edit.{edited, edit_user_lem}
use tp_socks5_proxy.Config.Settings.{buff_size_roundtrip}

-- An array of the table with a text of one byte, and an empty one.
abbrev spelled : ℕ → Bytes
spelled c = c ∷ replicate 9 0

abbrev empty : User
empty = record { name = replicate 10 0; pass = replicate 10 0 }

abbrev conf : Config
conf = record {
  disectors_enabled = true;
  auth_enabled = false;
  socks_buffer_size = 1024;
  mng_token = default_token;
  users =
      record { name = spelled 97; pass = spelled 98 }
      ∷ record { name = spelled 99; pass = spelled 100 }
      ∷ replicate 8 empty;
  users_size = 2;
}

abbrev entries : List Entry
entries = (97 ∷ [], 98 ∷ []) ∷ (99 ∷ [], 100 ∷ []) ∷ []

spelled-Spells : (c : ℕ) → Spells (spelled (suc c)) (suc c ∷ [])
spelled-Spells c = record {
  post = replicate 8 0;
  layout = refl;
  text = (omega arith, tt);
  size = refl;
}

conf-IsTable : IsTable conf entries
conf-IsTable = record {
  table = used (spelled-Spells 96) (spelled-Spells 97) (
      used (spelled-Spells 98) (spelled-Spells 99)
        (unused (unused (unused (unused (unused (unused (unused (unused end)))))))));
  size = refl;
  array = refl;
}
  where
    unused : {us : List User} → Table us [] → Table (empty ∷ us) []
    unused = free (refl, refl)

check-conf : check_user conf (99 ∷ []) (100 ∷ []) ≡ some true
unfolding check_user check_loop is_string
check-conf = refl

delete-conf :
    delete_user conf (97 ∷ [])
    ≡ some (
      pos 0,
      record conf {
        users =
            record { name = spelled 99; pass = spelled 100 }
            ∷ record { name = spelled 99; pass = spelled 100 }
            ∷ replicate 8 empty;
        users_size = 1;
      },
    )
unfolding delete_user delete_loop is_string
delete-conf = refl

check_user-Answers_example :
    Answers (check_user conf (99 ∷ []) (100 ∷ [])) (99 ∷ [], 100 ∷ []) entries
check_user-Answers_example =
    check_user-Answers conf entries (99 ∷ []) (100 ∷ []) conf-IsTable (omega arith, tt)
      (omega arith, tt)

add_user_lem_example :
    (c' : Config) × (add_user conf (101 ∷ []) (102 ∷ []) ≡ some (pos 0, c'))
    × IsTable c' (entries ++ ((101 ∷ [], 102 ∷ []) ∷ []))
add_user_lem_example =
    add_user_lem conf entries (101 ∷ []) (102 ∷ []) conf-IsTable (omega arith, tt) (omega arith, tt)
      (omega arith) (omega arith) (omega arith)

delete_user_lem_example :
    ((c' : Config) × (pass : Bytes) × (t' : List Entry) × (delete_user conf (97 ∷ [])
        ≡ some (pos 0, c'))
      × IsTable c' t'
      × Perm entries ((97 ∷ [], pass) ∷ t'))
    ⊎ ((delete_user conf (97 ∷ []) ≡ some (negsuc 0, conf))
        × ((p : Bytes) → ¬ Mem (97 ∷ [], p) entries))
delete_user_lem_example = delete_user_lem conf entries (97 ∷ []) conf-IsTable (omega arith, tt)

edit_user_lem_example :
    ((c' : Config) × (pass : Bytes) × (pre : List Entry) × (post : List Entry) × (entries
        ≡ pre ++ ((99 ∷ [], pass) ∷ post))
      × (edit_user conf (99 ∷ []) (120 ∷ []) 1 ≡ some (pos 0, c'))
      × IsTable c' (pre ++ (edited 1 (120 ∷ []) (99 ∷ [], pass) ∷ post)))
    ⊎ ((edit_user conf (99 ∷ []) (120 ∷ []) 1 ≡ some (negsuc 0, conf))
        × ((p : Bytes) → ¬ Mem (99 ∷ [], p) entries))
edit_user_lem_example =
    edit_user_lem conf entries (99 ∷ []) (120 ∷ []) 1 conf-IsTable (omega arith, tt)
      (omega arith, tt) (omega arith)

buff_size_roundtrip_example :
    get_buff_size (set_buff_size conf 1 2 3 4) 16 ≡ some (1 ∷ 2 ∷ 3 ∷ 4 ∷ [])
buff_size_roundtrip_example =
    buff_size_roundtrip conf 1 2 3 4 16 (omega arith) (omega arith) (omega arith) (omega arith)
      (omega arith)

get_users-listing_example :
    (get_users conf 255 ≡ some (listing entries ++ (0 ∷ [])))
    × (length (listing entries ++ (0 ∷ [])) ≤ 201)
get_users-listing_example = get_users-listing conf entries 255 conf-IsTable (omega arith)
