-- ===== src/Models/Message/Argument.antt =====
-- `argument` and `arguments` of a message, and the `upn` of its sender.
use pybotx.Common.{Option, none, some, List, [], ◌∷◌, ◌++◌, map, length, drop}
use pybotx.Common.Text.{Str, split, strip}
use pybotx.Models.Message.Types.{UserSender}

-- `IncomingMessage.argument`, of the body
unfoldable pub argument : Str → Str
argument body = elim (split body) [ [] ↦ [] | command ∷ words ↦ strip (drop (length command) body) ]

-- `IncomingMessage.arguments`
unfoldable pub arguments : Str → List Str
arguments body = map strip (split (argument body))

-- `UserSender.upn`: an empty part is as good as none
unfoldable pub upn_of : Option Str → Option Str → Option Str
upn_of (some (c ∷ login)) (some (d ∷ domain)) = some ((c ∷ login) ++ b'@' ∷ d ∷ domain)
upn_of _ _ = none

unfoldable pub upn : UserSender → Option Str
upn sender = upn_of sender.ad_login sender.ad_domain
