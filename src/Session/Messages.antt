-- ===== src/Session/Messages.antt =====
-- The texts of `UnauthorizedError`, `ConnectFailedError` and `DisconnectedReason`
-- (device-agent/src/moonlight_codec.rs) that reach the status and the notifications.
use devicekit.Prelude.Text.{Str, chars}
use devicekit.Protocol.{UnauthorizedError, ConnectFailedError}
use devicekit.Response.{DisconnectedReason}

pub unauthorized_message : UnauthorizedError → Str
unauthorized_message UnauthorizedError.unknown = chars "unauthorized: Unknown Error"
unauthorized_message UnauthorizedError.invalid_credentials =
    chars
      "unauthorized: The credentials are invalid. Please confirm the Fleet ID, Device ID, and the Device Secret are correctly entered."
unauthorized_message UnauthorizedError.fleet_not_found =
    chars "unauthorized: No fleet with the provided Fleet ID exists."
unauthorized_message UnauthorizedError.device_not_found =
    chars "unauthorized: No device with the provided Device ID exists."
unauthorized_message UnauthorizedError.device_secret_incorrect =
    chars "unauthorized: The device secret is incorrect. It may have been reset."
unauthorized_message UnauthorizedError.device_disabled =
    chars
      "unauthorized: The device is disabled. Enable it on fostrom.io to use it. Please note that after enabling, the device may not retry connecting for up to ten minutes. Restart the device if possible."
unauthorized_message UnauthorizedError.temporary_ban =
    chars
      "unauthorized: The device has been temporarily banned. This happens when the device retries connecting too frequently and receives unauthorized responses. The ban is automatically lifted every 15 minutes."

pub connect_failed_message : ConnectFailedError → Str
connect_failed_message ConnectFailedError.unknown = chars "connect_failed: Unknown Error"
connect_failed_message ConnectFailedError.service_restarting =
    chars "connect_failed: Fostrom servers are restarting..."
connect_failed_message ConnectFailedError.service_unavailable =
    chars "connect_failed: Fostrom is currently unavailable."
connect_failed_message ConnectFailedError.service_degraded =
    chars "connect_failed: Fostrom is currently experiencing degraded availability."

pub disconnected_message : DisconnectedReason → Str
disconnected_message DisconnectedReason.force_close_socket = chars "disconnect: Socket Terminated"
disconnected_message DisconnectedReason.normal_disconnect =
    chars "disconnect: Disconnected from Server on User Request"
disconnected_message (DisconnectedReason.unauthorized reason) = unauthorized_message reason
disconnected_message (DisconnectedReason.connect_failed reason) = connect_failed_message reason
