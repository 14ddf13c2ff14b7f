-- ===== src/Acl/Call.antt =====
-- The calls of dino/validation/acl.py through the class of a validator: `__call__` and
-- `validate_new_acl`, with the custom pattern's recursion over the other validators. `depth` stands
-- for the recursion limit of Python.
use dino.Prelude.{ℕ, zero, suc, Bool, []}
use dino.Prelude.Text.{Text}
use dino.Prelude.Dict.{Dict}
use dino.Prelude.Result.{Result, ok, err, ◌>>=◌}
use dino.Acl.{
  is_admin, is_room_owner, is_super_user, pattern, disallow, same_channel, same_room, range,
  str_in_csv, csv_in_csv, not_allowed, Exception, recursion_error, granted, denied, Check,
  Validator, Activity, Env,
}
use dino.Acl.Validators.{
  call_admin, call_room_owner, call_super_user, call_same_channel, call_same_room, call_str_in_csv,
  call_csv_in_csv, call_range, new_csv, new_range,
}
use dino.Acl.Pattern.{split_and_test, caught, new_pattern}

-- `validator(activity, env, acl_type, acl_value, value_is_negated, session_to_use)`; the pattern
-- calls its validators without a session, so they take that of the environment.
unfoldable pub call : ℕ → Env → Activity → Validator → Text → Text → Bool → Dict Text → Check
call zero env act v acl_type value negated session = err recursion_error
call (suc depth) env act is_admin acl_type value negated session = call_admin env act negated
call (suc depth) env act is_room_owner acl_type value negated session =
    call_room_owner env act negated
call (suc depth) env act is_super_user acl_type value negated session =
    call_super_user env act negated
call (suc depth) env act pattern acl_type value negated session = caught (
    split_and_test env.validators (λ v t x n. call depth env act v t x n env.session) depth []
      value)
call (suc depth) env act disallow acl_type value negated session = ok (denied not_allowed)
call (suc depth) env act same_channel acl_type value negated session = call_same_channel act negated
call (suc depth) env act same_room acl_type value negated session = call_same_room env act negated
call (suc depth) env act range acl_type value negated session =
    call_range env acl_type value negated
call (suc depth) env act (str_in_csv _) acl_type value negated session =
    call_str_in_csv session acl_type value negated
call (suc depth) env act (csv_in_csv _) acl_type value negated session =
    call_csv_in_csv session acl_type value negated

-- `validator.validate_new_acl(value)`. In a pattern a leaf that raises nothing is `True, None`.
unfoldable pub new_acl : ℕ → Env → Validator → Text → Result Exception (Unit {0})
new_acl zero env v value = err recursion_error
new_acl (suc depth) env pattern value =
    new_pattern env.validators (λ v acl_type x negated. new_acl depth env v x >>= λ _. ok granted)
      depth value
new_acl (suc depth) env range value = new_range value
new_acl (suc depth) env (str_in_csv valid) value = new_csv valid value
new_acl (suc depth) env (csv_in_csv valid) value = new_csv valid value
new_acl (suc depth) env _ value = ok tt
