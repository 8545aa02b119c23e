-- ===== src/SubconversationTools.antt =====
-- lib/tools/subconversation-tools.js: the two tools that answer with a signal for the manager.
use gemini_agent_lib.Prelude.{String, not, ◌||◌, if◌then◌else◌}
use gemini_agent_lib.Value.{Value, null, str, obj, field, end, truthy, get_member, is_undefined}

abbrev pub request_error : String
request_error =
    "[Tool Signal Error] Argumentos inválidos para request_specialist_sub_conversation (specialist_role e initial_context são obrigatórios)."

abbrev pub end_error : String
end_error =
    "[Tool Signal Error] Argumentos inválidos para end_specialist_sub_conversation (status, final_result, e last_user_message são obrigatórios)."

abbrev pub signal_error : String → Value → Value
signal_error message args = obj (
    field "_signal_type" (str "SIGNAL_ERROR")
      (field "error" (str message) (field "originalArgs" args end)))

abbrev pub signal : String → Value → Value
signal type details = obj (field "_signal_type" (str type) (field "details" details end))

abbrev pub request_details : Value → Value → Value
request_details role context =
    obj (field "specialist_role" role (field "initial_context" context end))

abbrev pub end_details : Value → Value → Value → Value → Value
end_details status result last message = obj (
    field "status" status (
      field "final_result" result
        (field "last_user_message" last (field "message_to_coordinator" message end))))

-- `v || null`
abbrev pub value_or_null : Value → Value
value_or_null v = if truthy v then v else null

-- the `function` of `request_specialist_sub_conversation`; the arguments are an object
unfoldable pub request_specialist_sub_conversation : Value → Value
request_specialist_sub_conversation args =
    if not (truthy (get_member args "specialist_role"))
      || not (truthy (get_member args "initial_context"))
    then signal_error request_error args
    else signal "REQUEST_SUB_CONVERSATION"
        (request_details (get_member args "specialist_role") (get_member args "initial_context"))

-- the `function` of `end_specialist_sub_conversation`; the arguments are an object
unfoldable pub end_specialist_sub_conversation : Value → Value
end_specialist_sub_conversation args =
    if not (truthy (get_member args "status"))
      || is_undefined (get_member args "final_result")
      || is_undefined (get_member args "last_user_message")
    then signal_error end_error args
    else signal "END_SUB_CONVERSATION" (
        end_details (get_member args "status") (get_member args "final_result")
          (get_member args "last_user_message")
          (value_or_null (get_member args "message_to_coordinator")))
