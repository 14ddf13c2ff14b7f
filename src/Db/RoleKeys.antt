-- ===== src/Db/RoleKeys.antt =====
-- RoleKeys of dino/config.py.
use dino.Prelude.Text.{Text, str}

abbrev pub owner : Text
owner = str "owner"

abbrev pub moderator : Text
moderator = str "moderator"

abbrev pub admin : Text
admin = str "admin"

abbrev pub super_user : Text
super_user = str "superuser"

abbrev pub global_moderator : Text
global_moderator = str "globalmod"
