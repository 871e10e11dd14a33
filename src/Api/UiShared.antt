-- ===== src/Api/UiShared.antt =====
-- app/api/routers/_ui_shared.py
use report_insight.Base.{ℤ, List}
use report_insight.Domain.{User}
use report_insight.Db.{Exec, catch}
use report_insight.Repositories.User.{list_all}
use report_insight.Api.Deps.{get_signed, or_unauthenticated}

-- `resolve_user`, in a session of its own that only reads
unfoldable pub resolve_user : ℤ → Exec User
resolve_user uid = catch (get_signed uid) or_unauthenticated

unfoldable pub all_users : Exec (List User)
unfolding list_all
all_users = list_all
