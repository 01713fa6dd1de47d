-- ===== src/Bots/Actions.antt =====
-- The inputs of the bot actions: `commonParams` and `$scope.actions` of `botActionCtrl`, in
-- frontend/static/app/manage/controller/botslistCtrl.js.
pub mod Common
pub mod Inputs
use chat_bot_hub.Prelude.{String, true, false, none, some, List, [], ◌∷◌, ◌++◌, Object}
use Common.{
  Param, from_user_name, to_user_name, content, user_id, stranger, ticket, kind_param,
  verify_message, group_id, member_id, moment_id, moment_id_optional, label_id,
}

-- The actions on messages and contacts.
abbrev pub contact_actions : Object (List Param)
contact_actions =
    (
      "SendTextMessage",
      to_user_name
          ∷ content
          ∷ (record {
            name = "atList";
            display = some "点名列表";
            kind = "string";
            required = false;
            comment = none;
          })
          ∷ [],
    )
    ∷ (
      "SendAppMessage",
      to_user_name
          ∷ (record {
            name = "object";
            display = some "消息体";
            kind = "longstring";
            required = false;
            comment = some "json结构的消息体";
          })
          ∷ (record {
            name = "xml";
            display = none;
            kind = "longstring";
            required = false;
            comment = some "xml结构的消息体，object和xml至少有一个必须";
          })
          ∷ [],
    )
    ∷ ("GetContact", user_id ∷ [])
    ∷ ("CheckContact", user_id ∷ [])
    ∷ ("SearchContact", user_id ∷ [])
    ∷ (
      "AddContact",
      stranger
          ∷ ticket
          ∷ kind_param
          ∷ (record {
            name = "content";
            display = some "验证消息";
            kind = "string";
            required = false;
            comment = none;
          })
          ∷ [],
    )
    ∷ (
      "AcceptUser",
      from_user_name
          ∷ (record {
            name = "EncryptUserName";
            display = some "EncryptUserName";
            kind = "string";
            required = true;
            comment = none;
          })
          ∷ ticket
          ∷ (record {
            name = "content";
            display = some "content";
            kind = "string";
            required = false;
            comment = some "验证信息";
          })
          ∷ [],
    )
    ∷ ("SayHello", stranger ∷ ticket ∷ verify_message ∷ [])
    ∷ ("DeleteContact", user_id ∷ [])
    ∷ []

-- The actions on groups.
abbrev pub room_actions : Object (List Param)
room_actions =
    (
      "CreateRoom",
      (record {
        name = "memberList";
        display = some "用户列表";
        kind = "longstring";
        required = true;
        comment = some "必须是好友才能加群";
      })
          ∷ [],
    )
    ∷ ("GetRoomMembers", group_id ∷ [])
    ∷ ("AddRoomMember", group_id ∷ member_id ∷ [])
    ∷ ("InviteRoomMember", group_id ∷ member_id ∷ [])
    ∷ ("DeleteRoomMember", group_id ∷ member_id ∷ [])
    ∷ ("SetRoomName", group_id ∷ content ∷ [])
    ∷ ("GetRoomQRCode", group_id ∷ [])
    ∷ ("SetRoomAnnouncement", group_id ∷ content ∷ [])
    ∷ []

-- The actions on moments.
abbrev pub moment_actions : Object (List Param)
moment_actions =
    ("SnsSendMoment", content ∷ [])
    ∷ ("SnsTimeline", moment_id_optional ∷ [])
    ∷ ("SnsUserPage", user_id ∷ moment_id_optional ∷ [])
    ∷ ("SnsGetObject", moment_id ∷ [])
    ∷ ("SnsComment", user_id ∷ moment_id ∷ content ∷ [])
    ∷ ("SnsLike", user_id ∷ moment_id ∷ [])
    ∷ (
      "SnsUpload",
      (record {
        name = "file";
        display = some "文件";
        kind = "longstring";
        required = true;
        comment = some "上传图片的base64串，此接口仅上传，不会发送到朋友圈";
      })
          ∷ [],
    )
    ∷ (
      "SnsobjectOP",
      moment_id
          ∷ kind_param
          ∷ (record {
            name = "commentId";
            display = some "评论ID";
            kind = "string";
            required = true;
            comment = none;
          })
          ∷ (record {
            name = "commentType";
            display = some "评论类型";
            kind = "int";
            required = true;
            comment = none;
          })
          ∷ [],
    )
    ∷ []

-- The actions on labels and the rest.
abbrev pub label_actions : Object (List Param)
label_actions =
    ("GetLabelList", [])
    ∷ (
      "AddLabel",
      (record {
        name = "label";
        display = some "label 标签";
        kind = "string";
        required = true;
        comment = none;
      })
          ∷ [],
    )
    ∷ ("DeleteLabel", label_id ∷ [])
    ∷ (
      "SetLabel",
      (record {
        name = "labelIdList";
        display = some "标签Id列表，逗号分隔";
        kind = "string";
        required = true;
        comment = none;
      })
          ∷ user_id
          ∷ [],
    )
    ∷ (
      "GetRequestToken",
      (record {
        name = "ghName";
        display = some "公众号ID";
        kind = "string";
        required = true;
        comment = none;
      })
          ∷ (record {
            name = "url";
            display = some "url";
            kind = "string";
            required = true;
            comment = none;
          })
          ∷ [],
    )
    ∷ (
      "RequestUrl",
      (record {
        name = "url";
        display = some "url";
        kind = "string";
        required = true;
        comment = none;
      })
          ∷ (record {
            name = "xKey";
            display = some "xKey";
            kind = "string";
            required = true;
            comment = none;
          })
          ∷ (record {
            name = "xUin";
            display = some "xUin";
            kind = "string";
            required = true;
            comment = none;
          })
          ∷ [],
    )
    ∷ ("SyncContact", [])
    ∷ []

-- `$scope.actions`.
unfoldable pub actions : Object (List Param)
actions = contact_actions ++ (room_actions ++ (moment_actions ++ label_actions))
