-- ===== src/RoomStore/History.antt =====
-- The merge of a history bundle by `onMessage` of frontend/src/stores/roomStore.ts.
use shadowchat.Common.Dict
use shadowchat.Platform.{Platform}
