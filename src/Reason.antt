-- ===== src/Reason.antt =====
-- pkg/reason/model.go and err.go: the error value that handlers return, and the table of the reasons
-- that are in use. An `Error` is never changed in place: each setter copies it.
-- `NewError` panics on a reason that is in the table, which is `none` here.
pub mod Laws
mod Examples
use Prim.Native.String.{String}
use text.Mathlib.Text.{◌==◌}
use goddd.Common.{
  ℕ, Bool, true, false, ◌||◌, List, [], ◌∷◌, ◌++◌, Option, none, some, if◌then◌else◌,
}

pub record Error : Type 0 where
  pub reason : String
  pub msg : String
  pub details : List String
  pub http_status : ℕ

pub set_http_status : ℕ → Error → Error
set_http_status status e = record e { http_status = status }

pub set_msg : String → Error → Error
set_msg s e = record e { msg = s }

-- `append(append(newErr.Details, e.Details...), args...)`, where `newErr` is a copy of `e`.
unfoldable pub with_args : List String → Error → Error
with_args args e = record e { details = (e.details ++ e.details) ++ args }

-- `Withf` formats its arguments to one text first.
pub withf : String → Error → Error
withf formatted e = record e { details = (e.details ++ e.details) ++ (formatted ∷ []) }

-- `Is`: the other error is compared by its reason, if it has one.
pub is_error : Error → Option String → Bool
is_error e none = false
is_error e (some r) = r == e.reason

-- `Error()` writes the message and then each detail after a semicolon. Texts are lists of pieces.
pub error_pieces : Error → List String
error_pieces e = e.msg ∷ details_of e.details
  where
    details_of : List String → List String
    details_of [] = []
    details_of (d ∷ ds) = ";" ∷ d ∷ details_of ds

-- The package's table `codes`, as the pairs in the order of their registration.
abbrev pub Codes : Type 0
Codes = List (String × String)

pub has_code : String → Codes → Bool
has_code r [] = false
has_code r ((k, m) ∷ codes) = k == r || has_code r codes

pub new_error : String → String → Codes → Option (Codes × Error)
unfolding has_code
new_error r m codes =
    if has_code r codes
    then none
    else some
        (codes ++ ((r, m) ∷ []), record { reason = r; msg = m; details = []; http_status = 400 })

-- The declarations of err.go, in their order: a reason, a message, and a status that is set.
pub data Declared : Type 0 where
  plain : String → String → Declared
  status : String → String → ℕ → Declared

pub declare : Declared → Codes → Option (Codes × Error)
unfolding new_error
declare (plain r m) codes = new_error r m codes
declare (status r m n) codes = elim (new_error r m codes) [
  | none ↦ none
  | some (codes', e) ↦ some (codes', set_http_status n e)
]

pub declare_all : List Declared → Codes → Option (Codes × List Error)
unfolding declare
declare_all [] codes = some (codes, [])
declare_all (d ∷ ds) codes = elim (declare d codes) [
  | none ↦ none
  | some (codes', e) ↦ elim (declare_all ds codes') [
    | none ↦ none
    | some (codes'', es) ↦ some (codes'', e ∷ es)
  ]
]

abbrev pub common_errors : List Declared
common_errors =
    plain "ErrBadRequest" "请求参数有误"
    ∷ plain "ErrStore" "数据发生错误"
    ∷ plain "ErrServer" "服务器发生错误"
    ∷ status "ErrUnauthorizedToken" "用户已过期或错误" 401
    ∷ plain "ErrJSON" "JSON 编解码出错"
    ∷ plain "ErrNotFound" "资源未找到"
    ∷ plain "ErrUsedLogic" "使用逻辑错误"
    ∷ plain "ErrLoginLimiter" "触发登录限制"
    ∷ plain "ErrPermissionDenied" "没有该资源的权限"
    ∷ plain "ErrTimeout" "请求超时"
    ∷ plain "ErrTooManyRequests" "请求频率过高"
    ∷ plain "ErrServiceUnavailable" "服务暂时不可用"
    ∷ plain "ErrNetworkError" "网络连接错误"
    ∷ plain "ErrFileUpload" "文件上传失败"
    ∷ plain "ErrFileTooLarge" "文件大小超出限制"
    ∷ plain "ErrUnsupportedMediaType" "不支持的媒体类型"
    ∷ plain "ErrContentTooLarge" "请求体过大"
    ∷ status "ErrRateLimit" "请求频率过高" 429
    ∷ plain "ErrNameOrPasswd" "用户名或密码错误"
    ∷ plain "ErrCaptchaWrong" "验证码错误"
    ∷ plain "ErrAccountDisabled" "登录限制"
    ∷ plain "test_new_error" ""
    ∷ []
