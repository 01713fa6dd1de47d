-- ===== src/Bots/Actions/Common.antt =====
-- A parameter of a bot action, and `commonParams` of `botActionCtrl`, in
-- frontend/static/app/manage/controller/botslistCtrl.js.
use chat_bot_hub.Prelude.{String, Bool, true, false, Option, none, some}

pub record Param : Type 0 where
  pub name : String
  pub display : Option String
  pub kind : String
  pub required : Bool
  pub comment : Option String

abbrev pub from_user_name : Param
from_user_name = record {
  name = "fromUserName";
  display = some "发件人";
  kind = "string";
  required = true;
  comment = some "发件人的wxid";
}

abbrev pub to_user_name : Param
to_user_name = record {
  name = "toUserName";
  display = some "收件人";
  kind = "string";
  required = true;
  comment = some "收件人的wxid或者groupid";
}

abbrev pub content : Param
content = record {
  name = "content";
  display = some "内容";
  kind = "longstring";
  required = true;
  comment = none;
}

abbrev pub user_id : Param
user_id = record {
  name = "userId";
  display = some "联系人ID";
  kind = "string";
  required = true;
  comment = some "联系人的wxid";
}

abbrev pub stranger : Param
stranger = record {
  name = "stranger";
  display = some "stranger";
  kind = "string";
  required = true;
  comment = none;
}

abbrev pub ticket : Param
ticket = record {
  name = "ticket";
  display = some "ticket";
  kind = "string";
  required = true;
  comment = none;
}

abbrev pub kind_param : Param
kind_param = record {
  name = "type";
  display = some "type";
  kind = "int";
  required = true;
  comment = none;
}

abbrev pub verify_message : Param
verify_message = record {
  name = "content";
  display = some "content";
  kind = "string";
  required = true;
  comment = some "验证信息";
}

abbrev pub group_id : Param
group_id = record {
  name = "groupId";
  display = some "群ID";
  kind = "string";
  required = true;
  comment = none;
}

abbrev pub member_id : Param
member_id = record {
  name = "memberId";
  display = some "群成员ID";
  kind = "string";
  required = true;
  comment = none;
}

abbrev pub moment_id : Param
moment_id = record {
  name = "momentId";
  display = some "动态ID";
  kind = "string";
  required = true;
  comment = none;
}

abbrev pub moment_id_optional : Param
moment_id_optional = record {
  name = "momentId";
  display = some "动态ID";
  kind = "string";
  required = false;
  comment = none;
}

abbrev pub label_id : Param
label_id = record {
  name = "labelId";
  display = some "标签ID";
  kind = "string";
  required = true;
  comment = none;
}
